-- ===== src/Adapters/Http/Reply.antt =====
-- What `write` puts on the wire.
use go_health.Prelude.{
  ℕ, ◌≡◌, refl, ap, ◌≢◌, ◌⊎◌, inl, inr, String, List, [], ◌∷◌, Option, none, some, arith,
}
use package.text.Mathlib.TextEquality.{eq_iff}
use go_health.Go.Exec.{returned, panicked}
use go_health.Go.Table.{lookup, assign}
use go_health.Go.Json.{Json, Encoded, encoded, failed}
use go_health.Go.Json as Docs
use go_health.Go.Http.{
  ResponseWriter, document, plain, fresh, set_header, write_header, write_body, http_error,
}
use go_health.Core.Status.{Status, status_fail, http_status_code}
use go_health.Core.Check.{HealthResponse}
use go_health.Core.Check.Encode.{encode}
use go_health.Core.Log.{LogEntry}
use go_health.Adapters.Http.{content_type, Served, write_encoded, write}

pub http_status_code_cases :
    (s : Status)
    → ((s ≡ status_fail) × (http_status_code s ≡ 503))
      ⊎ ((s ≢ status_fail) × (http_status_code s ≡ 200))
unfolding http_status_code
http_status_code_cases s = ground (arith, eq_iff s status_fail)

-- The document went out, or the client was gone.
pub record IsSent (response : HealthResponse) (doc : Json) (w : ResponseWriter)
    (logged : List LogEntry) (served : Served) : Type 0 where
  pub status : served.writer.status ≡ some (http_status_code response.status)
  pub typed : lookup "Content-Type" served.writer.header ≡ some content_type
  pub logs : served.logged ≡ logged
  pub delivered :
      ((w.broken ≡ none) × (served.writer.body ≡ document doc ∷ []) × (served.warnings ≡ []))
      ⊎ ((err : String) × (w.broken ≡ some err)
          × (served.writer.body ≡ [])
          × (served.warnings ≡ err ∷ []))

-- A plain-text 500.
pub record IsRefused (logged : List LogEntry) (served : Served) : Type 0 where
  pub status : served.writer.status ≡ some 500
  pub typed : lookup "Content-Type" served.writer.header ≡ some "text/plain; charset=utf-8"
  pub logs : served.logged ≡ logged
  pub body :
      (served.writer.body ≡ plain "failed to encode health response\n" ∷ [])
      ⊎ (served.writer.body ≡ [])

pub write-IsSent :
    (response : HealthResponse) (doc : Json) (logged : List LogEntry) (broken : Option String)
    (t : ℕ)
    → encode response ≡ encoded doc
    → (served : Served) × (write response logged (fresh broken) t ≡ returned served t)
      × IsSent response doc (fresh broken) logged served
unfolding write write_header write_body set_header lookup assign
write-IsSent response doc logged none t e = (
  _,
  ap (λ enc. write_encoded enc response logged (fresh none) t) e,
  record { status = refl; typed = refl; logs = refl; delivered = inl (refl, refl, refl) },
)
write-IsSent response doc logged (some err) t e = (
  _,
  ap (λ enc. write_encoded enc response logged (fresh (some err)) t) e,
  record { status = refl; typed = refl; logs = refl; delivered = inr (err, refl, refl, refl) },
)

pub write-IsRefused :
    (response : HealthResponse) (err : String) (logged : List LogEntry) (broken : Option String)
    (t : ℕ)
    → encode response ≡ failed err
    → (served : Served) × (write response logged (fresh broken) t ≡ returned served t)
      × IsRefused logged served
unfolding write http_error lookup assign
write-IsRefused response err logged none t e = (
  _,
  ap (λ enc. write_encoded enc response logged (fresh none) t) e,
  record { status = refl; typed = refl; logs = refl; body = inl refl },
)
write-IsRefused response err logged (some gone) t e = (
  _,
  ap (λ enc. write_encoded enc response logged (fresh (some gone)) t) e,
  record { status = refl; typed = refl; logs = refl; body = inr refl },
)

pub Encoded-cases :
    {A : Type 0} (m : Encoded A)
    → ((a : A) × (m ≡ encoded a))
      ⊎ ((err : String) × (m ≡ failed err))
      ⊎ ((message : String) × (m ≡ Docs.panicked message))
Encoded-cases (encoded a) = inl (a, refl)
Encoded-cases (failed err) = inr (inl (err, refl))
Encoded-cases (Docs.panicked message) = inr (inr (message, refl))

pub write-panics :
    (response : HealthResponse) (message : String) (logged : List LogEntry) (w : ResponseWriter)
    (t : ℕ)
    → encode response ≡ Docs.panicked message
    → write response logged w t ≡ panicked message
unfolding write
write-panics response message logged w t e = rw e refl

-- What `write` did with a response, by the outcome of its encoding.
pub data Replied (response : HealthResponse) (logged : List LogEntry) (broken : Option String)
    (t : ℕ) : Type 0 where
  sent :
      (doc : Json) (served : Served)
      → encode response ≡ encoded doc
      → write response logged (fresh broken) t ≡ returned served t
      → IsSent response doc (fresh broken) logged served
      → Replied response logged broken t
  refused :
      (err : String) (served : Served)
      → encode response ≡ failed err
      → write response logged (fresh broken) t ≡ returned served t
      → IsRefused logged served
      → Replied response logged broken t
  raised :
      (message : String)
      → encode response ≡ Docs.panicked message
      → write response logged (fresh broken) t ≡ panicked message
      → Replied response logged broken t

-- On a fresh writer, `write` does one of three things. A response that encodes is sent as one chunk
-- with the code of its status and the health content type, or, where the client is gone, its code and
-- content type stand, no body does, and the error is warned of. A response that the encoder refuses
-- becomes a plain-text 500 with no part of a document. Where the encoder panics, `write` panics.
pub write-Replied :
    (response : HealthResponse) (logged : List LogEntry) (broken : Option String) (t : ℕ)
    → Replied response logged broken t
write-Replied response logged broken t = elim (Encoded-cases (encode response)) [
  | inl (doc, e) ↦
      let (served, done, is_sent) = write-IsSent response doc logged broken t e in
      sent doc served e done is_sent
  | inr (inl (err, e)) ↦
      let (served, done, is_refused) = write-IsRefused response err logged broken t e in
      refused err served e done is_refused
  | inr (inr (message, e)) ↦
      raised message e (write-panics response message logged (fresh broken) t e)
]
