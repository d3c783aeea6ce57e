-- ===== src/Go/Time.antt =====
-- time.Now().UTC().Format(time.RFC3339Nano), for a clock reading in nanoseconds since the epoch
-- (before the year 10000).
use Prim.Native.String.{◌++◌, [], ◌∷◌}
use text.Mathlib.TextLemmas.{nil-append, cons-append}
use go_health.Go.Decimal.{digit}
use go_health.Prelude.{
  ℕ, zero, suc, ◌+◌, ◌-◌, ◌*◌, ◌/◌, ◌%◌, ◌^◌, ◌≡◌, refl, ◌≢◌, String, leb, ltb, if◌then◌else◌,
}

-- `n` in `width` digits.
padded : ℕ → ℕ → String
unfolding digit
padded zero n = ""
padded (suc width) n = padded width (n / 10) ++ digit (n % 10)

-- The digits of a fraction of `10 ^ width`, with no zeros at the end.
fraction : ℕ → ℕ → String
unfolding digit
fraction zero n = ""
fraction (suc width) n =
    let rest = fraction width (n % 10 ^ width) in
    if ltb 0 n then digit (n / 10 ^ width) ++ rest else ""

record Date : Type 0 where
  year : ℕ
  month : ℕ
  day : ℕ

-- The civil date of a day counted from 1970-01-01.
civil : ℕ → Date
civil days =
    let z = days + 719468 in
    let era = z / 146097 in
    let doe = z % 146097 in
    let yoe = (doe - doe / 1460 + doe / 36524 - doe / 146096) / 365 in
    let doy = doe - (365 * yoe + yoe / 4 - yoe / 100) in
    let mp = (5 * doy + 2) / 153 in
    let month : ℕ = if ltb mp 10 then mp + 3 else mp - 9 in
    record {
      year = yoe + era * 400 + (if leb month 2 then 1 else 0);
      month = month;
      day = doy - (153 * mp + 2) / 5 + 1;
    }

stamp_parts : Date → ℕ → ℕ → String
unfolding padded fraction
stamp_parts date sec nanos =
    padded 4 date.year
    ++ "-"
    ++ padded 2 date.month
    ++ "-"
    ++ padded 2 date.day
    ++ "T"
    ++ padded 2 (sec / 3600)
    ++ ":"
    ++ padded 2 (sec / 60 % 60)
    ++ ":"
    ++ padded 2 (sec % 60)
    ++ (if ltb 0 nanos then "." ++ fraction 9 nanos else "")

unfoldable pub rfc3339_nano : ℕ → String
unfolding stamp_parts civil
rfc3339_nano t =
    let sec = t / 1000000000 in
    stamp_parts (civil (sec / 86400)) (sec % 86400) (t % 1000000000) ++ "Z"

append-Z-ne : (s : String) → (s ++ "Z") ≢ ""
append-Z-ne [] e = cc (nil-append "Z")
append-Z-ne (c ∷ s) e = cc (cons-append c s "Z")

-- A stamp is never empty.
pub rfc3339_nano-ne-empty : (t : ℕ) → rfc3339_nano t ≢ ""
unfolding rfc3339_nano
rfc3339_nano-ne-empty t = append-Z-ne _

stamp_tests :
    (rfc3339_nano 0 ≡ "1970-01-01T00:00:00Z")
    × (rfc3339_nano 1709208000123456000 ≡ "2024-02-29T12:00:00.123456Z")
    × (rfc3339_nano 951782399000000001 ≡ "2000-02-28T23:59:59.000000001Z")
unfolding rfc3339_nano
stamp_tests = (refl, refl, refl)
