-- ===== src/Etoro/Timestamps.antt =====
-- parseProviderTimestamp and offsetlessProviderTimestamp (internal/etoro/client.go), over the bytes of
-- a text. time.Parse in the two layouts is an argument.
use mfd.Prelude.{
  ℕ, Bool, true, false, ◌||◌, Option, none, some, List, [], ◌∷◌, ◌++◌, ◌==◌, if◌then◌else◌,
}
use mfd.Demo.Records.{Time}
use mfd.Http.Patterns.{Segment, is_digit, match_segments}

-- A time that is not the zero time, from RFC 3339 text or from text without an offset.
pub record TimeParser : Type 0 where
  pub rfc3339 : List ℕ → Option Time
  pub offsetless : List ℕ → Option Time

abbrev pub digits : ℕ → ℕ → Segment
digits least most = record { accepts = is_digit; least = least; most = most }

abbrev pub sign : ℕ → Segment
sign c = record { accepts = λ x. x == c; least = 1; most = 1 }

abbrev pub date_and_time : List Segment
date_and_time =
    digits 4 4
    ∷ sign b'-'
    ∷ digits 2 2
    ∷ sign b'-'
    ∷ digits 2 2
    ∷ sign b'T'
    ∷ digits 2 2
    ∷ sign b':'
    ∷ digits 2 2
    ∷ sign b':'
    ∷ digits 2 2
    ∷ []

-- `(?:\.\d{1,9})?`.
abbrev pub is_offsetless : List ℕ → Bool
is_offsetless value =
    match_segments date_and_time value
    || match_segments (date_and_time ++ sign b'.' ∷ digits 1 9 ∷ []) value

abbrev pub assumed_utc : Option Time → Option (Time × Bool)
assumed_utc none = none
assumed_utc (some at) = some (at, true)

-- The time, and whether it had no offset and was taken as UTC.
unfoldable pub parse_provider_timestamp : TimeParser → List ℕ → Option (Time × Bool)
parse_provider_timestamp time value = elim (time.rfc3339 value) [
  | some at ↦ some (at, false)
  | none ↦ if is_offsetless value then assumed_utc (time.offsetless value) else none
]
