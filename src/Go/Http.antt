-- ===== src/Go/Http.antt =====
-- net/http: the writer of one response, as far as the adapter uses it.
use Prim.Native.String
use go_health.Prelude.{ℕ, String, List, [], ◌∷◌, ◌++◌, Option, none, some, ◌==◌, if◌then◌else◌}
use go_health.Go.Table.{assign}
use go_health.Go.Json.{Json}

-- What is written to a body: a document, followed by the newline of the encoder, or plain text.
pub data Chunk : Type 0 where
  document : Json → Chunk
  plain : String → Chunk

pub record ResponseWriter : Type 0 where
  pub header : List (String × String)
  pub status : Option ℕ
  pub body : List Chunk
  -- the error of a write, where the client is gone
  pub broken : Option String

-- A response that nothing was written to.
abbrev pub fresh : Option String → ResponseWriter
fresh broken = record { header = []; status = none; body = []; broken = broken }

unfoldable pub set_header : String → String → ResponseWriter → ResponseWriter
set_header key value w = record w { header = assign key value w.header }

unfoldable pub del_header : String → List (String × String) → List (String × String)
del_header key [] = []
del_header key ((k, v) ∷ header) =
    let rest = del_header key header in if k == key then rest else (k, v) ∷ rest

-- Only the first call counts.
abbrev first_status : Option ℕ → ℕ → ℕ
first_status none code = code
first_status (some code) _ = code

unfoldable pub write_header : ℕ → ResponseWriter → ResponseWriter
write_header code w = record w { status = some (first_status w.status code) }

abbrev deliver : Option String → Chunk → ResponseWriter → ResponseWriter × Option String
deliver none chunk w = (record w { body = w.body ++ chunk ∷ [] }, none)
deliver (some err) chunk w = (w, some err)

-- w.Write, which sends a header with 200 if none was sent.
unfoldable pub write_body : Chunk → ResponseWriter → ResponseWriter × Option String
unfolding write_header
write_body chunk w = deliver w.broken chunk (write_header 200 w)

-- http.Error
unfoldable pub http_error : String → ℕ → ResponseWriter → ResponseWriter
unfolding set_header del_header write_header write_body
http_error message code w =
    let cleared : ResponseWriter = record w { header = del_header "Content-Length" w.header } in
    let typed = set_header "Content-Type" "text/plain; charset=utf-8" cleared in
    let sniffed = set_header "X-Content-Type-Options" "nosniff" typed in
    (write_body (plain (String.◌++◌ message "\n")) (write_header code sniffed)).0
