-- ===== src/Lab/Normal.antt =====
-- The normal form of an experiment: what NormalizeExperiment (internal/lab/lab.go) lets through, and
-- that it is a fixed point.
use mfd.Prelude.Int.{ltb_ℤ, negsuc, ◌≤ℤ◌, pos, ℤ}
use mfd.Lab.Records.{Experiment, Text}
use mfd.Lab.Experiment.{
  bad_threshold, shock_out_of_range, bad_name, is_break, unknown_symbol, or_empty, or_default,
  byte_length, is_space, is_supported, or_baseline, put_back, normalize_experiment, trim_space,
  trim_left, check_shocks, trim_right,
}
use mfd.Prelude.{
  sym, ok_unique, suc, inr, >>=-eq-ok, some, ◌||◌, ltb, any_by, not, inl, ◌≤◌, Bool-cases, false,
  arith, ◌∙◌, fail_if-eq-ok, refl, ap, [], All, ◌∷◌, ℕ, true, ok, ◌≢◌, ◌≡◌, List, String,
}

abbrev pub IsAllowed : String × ℤ → Type 0
IsAllowed (symbol, bps) = (is_supported symbol ≡ true) × (negsuc 4999 ≤ℤ bps) × (bps ≤ℤ pos 5000)

pub record IsNormal (e : Experiment) : Type 0 where
  pub name-nonempty : e.name ≢ []
  pub name-trimmed : trim_space e.name ≡ e.name
  pub name-short : byte_length e.name ≤ 60
  pub name-one_line : any_by is_break e.name ≡ false
  pub at_least : pos 1 ≤ℤ e.review_threshold_bps
  pub at_most : e.review_threshold_bps ≤ℤ pos 5000
  pub shocks : List (String × ℤ)
  pub shocks-present : e.final_shock_bps ≡ some shocks
  pub shocks-allowed : All IsAllowed shocks

trim_left_idem : (cs : Text) → trim_left (trim_left cs) ≡ trim_left cs
unfolding trim_left
trim_left_idem [] = refl
trim_left_idem (c ∷ cs) = ground (arith, trim_left_idem cs)

trim_right-put_back :
    (c : ℕ) (cs : Text) → trim_right cs ≡ cs → trim_right (put_back c cs) ≡ put_back c cs
unfolding trim_right put_back
trim_right-put_back c [] h = ground arith
trim_right-put_back c (x ∷ xs) h = ap (put_back c) h

trim_right_idem : (cs : Text) → trim_right (trim_right cs) ≡ trim_right cs
unfolding trim_right
trim_right_idem [] = refl
trim_right_idem (c ∷ cs) = trim_right-put_back c (trim_right cs) (trim_right_idem cs)

put_back-trim_left :
    (c : ℕ) (cs : Text) → is_space c ≡ false → trim_left (put_back c cs) ≡ put_back c cs
unfolding trim_left put_back
put_back-trim_left c [] h = ground arith
put_back-trim_left c (x ∷ xs) h = ground arith

trim_left-trim_right :
    (cs : Text) → trim_left (trim_right (trim_left cs)) ≡ trim_right (trim_left cs)
unfolding trim_left trim_right
trim_left-trim_right [] = refl
trim_left-trim_right (c ∷ cs) = elim (Bool-cases (is_space c)) [
  | inl h ↦ ground (arith, trim_left-trim_right cs)
  | inr h ↦ ground (arith, put_back-trim_left c (trim_right cs) h)
]

trim_space_idem : (cs : Text) → trim_space (trim_space cs) ≡ trim_space cs
unfolding trim_space
trim_space_idem cs = ap trim_right (trim_left-trim_right cs) ∙ trim_right_idem (trim_left cs)

or_baseline-nonempty : (cs : Text) → or_baseline cs ≢ []
or_baseline-nonempty [] = ground arith
or_baseline-nonempty (c ∷ cs) = ground arith

or_baseline-fixed : (cs : Text) → cs ≢ [] → or_baseline cs ≡ cs
or_baseline-fixed [] h = absurd (h refl)
or_baseline-fixed (c ∷ cs) h = refl

trim_space-or_baseline :
    (cs : Text) → trim_space cs ≡ cs → trim_space (or_baseline cs) ≡ or_baseline cs
unfolding trim_space trim_left trim_right put_back is_space
trim_space-or_baseline [] h = refl
trim_space-or_baseline (c ∷ cs) h = h

or_default-fixed : (n : ℤ) → pos 1 ≤ℤ n → or_default n ≡ n
or_default-fixed (pos ℕ.zero) h = absurd (ground arith)
or_default-fixed (pos (suc n)) h = refl
or_default-fixed (negsuc n) h = refl

check_shocks-IsAllowed : (m : List (String × ℤ)) → check_shocks m ≡ ok tt → All IsAllowed m
unfolding check_shocks
check_shocks-IsAllowed [] h = tt
check_shocks-IsAllowed ((symbol, bps) ∷ rest) h =
    let first = fail_if-eq-ok (not (is_supported symbol)) unknown_symbol _ h in
    let second =
      fail_if-eq-ok (ltb_ℤ bps (negsuc 4999) || ltb_ℤ (pos 5000) bps) shock_out_of_range _
        first.1 in
    (
      (ground (arith, first.0), ground (arith, second.0), ground (arith, second.0)),
      check_shocks-IsAllowed rest second.1,
    )

IsAllowed-check_shocks : (m : List (String × ℤ)) → All IsAllowed m → check_shocks m ≡ ok tt
unfolding check_shocks
IsAllowed-check_shocks [] h = refl
IsAllowed-check_shocks ((symbol, bps) ∷ rest) h = ground (arith, IsAllowed-check_shocks rest)

normalize_experiment-result : (e e' : Experiment) → normalize_experiment e ≡ ok e' → IsNormal e'
unfolding normalize_experiment
normalize_experiment-result e e' h =
    let name = or_baseline (trim_space e.name) in
    let threshold = or_default e.review_threshold_bps in
    let shocks = or_empty e.final_shock_bps in
    let named = fail_if-eq-ok (ltb 60 (byte_length name) || any_by is_break name) bad_name _ h in
    let bounded =
      fail_if-eq-ok (ltb_ℤ threshold (pos 1) || ltb_ℤ (pos 5000) threshold) bad_threshold _
        named.1 in
    let checked = >>=-eq-ok (check_shocks shocks) _ bounded.1 in
    rw (ok_unique {r = ok e'} refl (sym checked.2)) (record {
      name-nonempty = or_baseline-nonempty (trim_space e.name);
      name-trimmed = trim_space-or_baseline (trim_space e.name) (trim_space_idem e.name);
      name-short = ground (arith, named.0);
      name-one_line = ground (arith, named.0);
      at_least = ground (arith, bounded.0);
      at_most = ground (arith, bounded.0);
      shocks = shocks;
      shocks-present = refl;
      shocks-allowed = check_shocks-IsAllowed shocks checked.1;
    })

name-fixed : (e : Experiment) → IsNormal e → or_baseline (trim_space e.name) ≡ e.name
name-fixed e n = rw n.name-trimmed (or_baseline-fixed e.name n.name-nonempty)

normalize_experiment-fixed : (e : Experiment) → IsNormal e → normalize_experiment e ≡ ok e
unfolding normalize_experiment
normalize_experiment-fixed e n =
    rw (name-fixed e n, or_default-fixed e.review_threshold_bps n.at_least, n.shocks-present)
      (rw (IsAllowed-check_shocks n.shocks n.shocks-allowed)
        (ground (arith, n.name-short, n.name-one_line, n.at_least, n.at_most)))

-- A normalized experiment has a trimmed, non-empty one-line name of at most 60 bytes, a threshold
-- in 1..5000 and supported shocks in range, and normalizing it again changes nothing.
pub normalize_experiment-IsNormal :
    (e e' : Experiment)
    → normalize_experiment e ≡ ok e'
    → IsNormal e' × (normalize_experiment e' ≡ ok e')
normalize_experiment-IsNormal e e' h =
    let n = normalize_experiment-result e e' h in (n, normalize_experiment-fixed e' n)
