-- ===== src/Http/Identifiers.antt =====
-- What keyPattern and idPattern (internal/httpapi/server.go) accept, and that newID
-- (internal/platform/platform.go) makes identifiers that the interface takes.
use mfd.Prelude.{
  ◌∙◌, ℕ, Bool, true, ◌&&◌, List, [], ◌∷◌, ◌++◌, ◌==◌, leb, all_by, length, zero, suc, ◌≡◌, refl,
  arith, All, ◌%◌, ◌-◌, ◌/◌,
}
use mfd.Http.Patterns.{
  hyphen, hex_run, Segment, match_run, match_segments, key_pattern, id_pattern, is_key_character,
  is_hex, hex_digit, hex, RandomId, new_id, with_version, with_variant,
}

match_run-end :
    (accepts : ℕ → Bool) (least most : ℕ) (s : List ℕ)
    → match_run accepts least most (match_segments []) s
      ≡ (leb least (length s) && leb (length s) most && all_by accepts s)
unfolding match_run match_segments
match_run-end accepts least zero [] = ground arith
match_run-end accepts least zero (c ∷ cs) = ground arith
match_run-end accepts least (suc most) [] = ground arith
match_run-end accepts least (suc most) (c ∷ cs) =
    ground (arith, match_run-end accepts (least - 1) most cs)

-- An idempotency key is accepted exactly if it has 8 to 100 characters, all of them letters, digits,
-- hyphens or underscores.
pub key_pattern_lem :
    (key : List ℕ)
    → match_segments key_pattern key
      ≡ (leb 8 (length key) && leb (length key) 100 && all_by is_key_character key)
unfolding match_segments
key_pattern_lem key = match_run-end is_key_character 8 100 key

-- A run that is as long as the pattern wants is read off.
match_run-exact :
    (accepts : ℕ → Bool) (follows : List ℕ → Bool) (xs s : List ℕ)
    → All (λ x. accepts x ≡ true) xs
    → match_run accepts (length xs) (length xs) follows (xs ++ s) ≡ follows s
unfolding match_run
match_run-exact accepts follows [] s h = ground arith
match_run-exact accepts follows (x ∷ xs) s h =
    ground (arith, h.0, match_run-exact accepts follows xs s h.1)

is_hex-hex_digit : (n : ℕ) → is_hex (hex_digit (n % 16)) ≡ true
is_hex-hex_digit n = ground arith

hex-All : (bs : List ℕ) → All (λ c. is_hex c ≡ true) (hex bs)
unfolding hex
hex-All [] = tt
hex-All (b ∷ bs) = (is_hex-hex_digit (b / 16), (is_hex-hex_digit b, hex-All bs))

hex-segment :
    (bs : List ℕ) (gs : List Segment) (s : List ℕ)
    → match_segments gs s ≡ true
    → match_segments (hex_run (length (hex bs)) ∷ gs) (hex bs ++ s) ≡ true
unfolding match_segments
hex-segment bs gs s h = match_run-exact is_hex (match_segments gs) (hex bs) s (hex-All bs) ∙ h

hyphen-segment :
    (gs : List Segment) (s : List ℕ)
    → match_segments gs s ≡ true
    → match_segments (hyphen ∷ gs) (b'-' ∷ s) ≡ true
unfolding match_segments
hyphen-segment gs s h =
    match_run-exact (λ c. c == b'-') (match_segments gs) (b'-' ∷ []) s (refl, tt) ∙ h

last-segment : match_segments [] [] ≡ true
unfolding match_segments
last-segment = refl

-- Whatever 16 bytes newID draws, the identifier that it formats passes idPattern: the routes that take
-- an identifier accept every one that the program has given out.
pub new_id-id_pattern : (r : RandomId) → match_segments id_pattern (new_id r) ≡ true
unfolding new_id hex
new_id-id_pattern r = hex-segment (r.first.0 ∷ r.first.1 ∷ r.first.2 ∷ r.first.3 ∷ []) _ _ (
    hyphen-segment _ _ (
      hex-segment (r.second.0 ∷ r.second.1 ∷ []) _ _ (
        hyphen-segment _ _ (
          hex-segment (with_version r.third.0 ∷ r.third.1 ∷ []) _ _ (
            hyphen-segment _ _ (
              hex-segment (with_variant r.fourth.0 ∷ r.fourth.1 ∷ []) _ _ (
                hyphen-segment _ _ (
                  hex-segment (r.last.0 ∷ r.last.1 ∷ r.last.2 ∷ r.last.3 ∷ r.last.4 ∷ r.last.5 ∷ [])
                    [] [] last-segment))))))))
