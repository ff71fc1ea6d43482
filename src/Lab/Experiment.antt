-- ===== src/Lab/Experiment.antt =====
-- NormalizeExperiment (internal/lab/lab.go).
use mfd.Prelude.Int.{negsuc, ltb_ℤ, pos, ℤ}
use mfd.Lab.Records.{Experiment, Text}
use text.Mathlib.Text.{◌==◌ as str_eq}
use mfd.Prelude.{
  any_by, not, fail_if, ◌>>◌, none, ◌&&◌, ok, some, ◌+◌, ◌∷◌, ltb, leb, ◌||◌, Result, [], ◌==◌,
  Bool, if◌then◌else◌, List, Option, String, ℕ,
}

-- `unicode.IsSpace`.
unfoldable pub is_space : ℕ → Bool
is_space c =
    (leb 9 c && leb c 13)
    || c == 32
    || c == 0x85
    || c == 0xa0
    || c == 0x1680
    || (leb 0x2000 c && leb c 0x200a)
    || c == 0x2028
    || c == 0x2029
    || c == 0x202f
    || c == 0x205f
    || c == 0x3000

-- `strings.TrimSpace`.
unfoldable pub trim_left : Text → Text
trim_left [] = []
trim_left (c ∷ cs) = if is_space c then trim_left cs else c ∷ cs

unfoldable pub put_back : ℕ → Text → Text
put_back c [] = if is_space c then [] else c ∷ []
put_back c (x ∷ xs) = c ∷ x ∷ xs

unfoldable pub trim_right : Text → Text
trim_right [] = []
trim_right (c ∷ cs) = put_back c (trim_right cs)

unfoldable pub trim_space : Text → Text
trim_space cs = trim_right (trim_left cs)

-- `len` of a string: its bytes of UTF-8.
abbrev pub utf8_width : ℕ → ℕ
utf8_width c = if ltb c 0x80 then 1 else if ltb c 0x800 then 2 else if ltb c 0x10000 then 3 else 4

abbrev pub byte_length : Text → ℕ
byte_length [] = 0
byte_length (c ∷ cs) = utf8_width c + byte_length cs

-- One of the characters `\r`, `\n`, `\t`.
abbrev pub is_break : ℕ → Bool
is_break c = c == 13 || c == 10 || c == 9

abbrev pub baseline : Text
baseline = b'B' ∷ b'a' ∷ b's' ∷ b'e' ∷ b'l' ∷ b'i' ∷ b'n' ∷ b'e' ∷ []

abbrev pub or_baseline : Text → Text
or_baseline [] = baseline
or_baseline (c ∷ cs) = c ∷ cs

pub data ExperimentError : Type 0 where
  bad_name bad_threshold unknown_symbol shock_out_of_range : ExperimentError

abbrev pub or_empty : Option (List (String × ℤ)) → List (String × ℤ)
or_empty none = []
or_empty (some m) = m

unfoldable pub is_supported : String → Bool
is_supported symbol = str_eq symbol "AAPL" || str_eq symbol "MSFT"

-- The loop over the map.
unfoldable pub check_shocks : List (String × ℤ) → Result ExperimentError (Unit {0})
check_shocks [] = ok tt
check_shocks ((symbol, bps) ∷ rest) = do
  fail_if (not (is_supported symbol)) unknown_symbol
  fail_if (ltb_ℤ bps (negsuc 4999) || ltb_ℤ (pos 5000) bps) shock_out_of_range
  check_shocks rest

abbrev pub or_default : ℤ → ℤ
or_default (pos ℕ.zero) = pos 100
or_default n = n

unfoldable pub normalize_experiment : Experiment → Result ExperimentError Experiment
normalize_experiment e = do
  let name = or_baseline (trim_space e.name)
  fail_if (ltb 60 (byte_length name) || any_by is_break name) bad_name
  let threshold = or_default e.review_threshold_bps
  fail_if (ltb_ℤ threshold (pos 1) || ltb_ℤ (pos 5000) threshold) bad_threshold
  let shocks = or_empty e.final_shock_bps
  check_shocks shocks
  ok (record { name = name; final_shock_bps = some shocks; review_threshold_bps = threshold })
