-- ===== src/Http/Patterns.antt =====
-- keyPattern and idPattern (internal/httpapi/server.go), and newID (internal/platform/platform.go),
-- over the bytes of a text.
use mfd.Prelude.{
  ℕ, Bool, true, false, ◌&&◌, ◌||◌, List, [], ◌∷◌, ◌++◌, ◌==◌, leb, ltb, ◌+◌, ◌/◌, ◌%◌, zero, suc,
  if◌then◌else◌, ◌-◌,
}

abbrev pub is_digit : ℕ → Bool
is_digit c = leb b'0' c && leb c b'9'

-- `[a-zA-Z0-9_-]`.
abbrev pub is_key_character : ℕ → Bool
is_key_character c =
    (leb b'a' c && leb c b'z') || (leb b'A' c && leb c b'Z') || is_digit c || c == b'_' || c == b'-'

-- `[a-f0-9]`.
abbrev pub is_hex : ℕ → Bool
is_hex c = (leb b'a' c && leb c b'f') || is_digit c

-- What a pattern repeats: the characters of a class, a number of times.
pub record Segment : Type 0 where
  pub accepts : ℕ → Bool
  pub least : ℕ
  pub most : ℕ

-- A run of at least `least` and at most `most` accepted characters, and then what follows. The match
-- is greedy and falls back, as a regular expression's.
unfoldable pub match_run : (ℕ → Bool) → ℕ → ℕ → (List ℕ → Bool) → List ℕ → Bool
match_run accepts least zero follows s = least == 0 && follows s
match_run accepts least (suc most) follows [] = least == 0 && follows []
match_run accepts least (suc most) follows (c ∷ cs) =
    let longer = match_run accepts (least - 1) most follows cs in
    (accepts c && longer) || (least == 0 && follows (c ∷ cs))

unfoldable pub match_segments : List Segment → List ℕ → Bool
match_segments [] [] = true
match_segments [] (c ∷ cs) = false
match_segments (g ∷ gs) s = match_run g.accepts g.least g.most (match_segments gs) s

abbrev pub key_pattern : List Segment
key_pattern = record { accepts = is_key_character; least = 8; most = 100 } ∷ []

abbrev pub hex_run : ℕ → Segment
hex_run n = record { accepts = is_hex; least = n; most = n }

abbrev pub hyphen : Segment
hyphen = record { accepts = λ c. c == b'-'; least = 1; most = 1 }

abbrev pub id_pattern : List Segment
id_pattern =
    hex_run 8
    ∷ hyphen
    ∷ hex_run 4
    ∷ hyphen
    ∷ hex_run 4
    ∷ hyphen
    ∷ hex_run 4
    ∷ hyphen
    ∷ hex_run 12
    ∷ []

-- `%x` of one byte.
abbrev pub hex_digit : ℕ → ℕ
hex_digit n = if ltb n 10 then b'0' + n else b'a' + (n - 10)

unfoldable pub hex : List ℕ → List ℕ
hex [] = []
hex (b ∷ bs) = hex_digit (b / 16 % 16) ∷ hex_digit (b % 16) ∷ hex bs

-- The 16 random bytes of newID, in the groups that its format prints, with the version and the
-- variant that it writes into the bytes 6 and 8.
pub record RandomId : Type 0 where
  pub first : ℕ × ℕ × ℕ × ℕ
  pub second : ℕ × ℕ
  pub third : ℕ × ℕ
  pub fourth : ℕ × ℕ
  pub last : ℕ × ℕ × ℕ × ℕ × ℕ × ℕ

-- `(b & 15) | 64` and `(b & 63) | 128`.
abbrev pub with_version : ℕ → ℕ
with_version b = 64 + b % 16

abbrev pub with_variant : ℕ → ℕ
with_variant b = 128 + b % 64

unfoldable pub new_id : RandomId → List ℕ
new_id r =
    hex (r.first.0 ∷ r.first.1 ∷ r.first.2 ∷ r.first.3 ∷ [])
    ++ b'-' ∷ hex (r.second.0 ∷ r.second.1 ∷ [])
    ++ b'-' ∷ hex (with_version r.third.0 ∷ r.third.1 ∷ [])
    ++ b'-' ∷ hex (with_variant r.fourth.0 ∷ r.fourth.1 ∷ [])
    ++ b'-' ∷ hex (r.last.0 ∷ r.last.1 ∷ r.last.2 ∷ r.last.3 ∷ r.last.4 ∷ r.last.5 ∷ [])
