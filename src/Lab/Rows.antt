-- ===== src/Lab/Rows.antt =====
-- What ReplayExperiment (internal/lab/lab.go) logs: a valued snapshot and a decision for each
-- observation and sleeve.
use mfd.Prelude.Int.{pos, ◌+ℤ◌, ℤ}
use mfd.Prelude.{
  map, length-append, length-snoc, [], List, ◌∙◌, refl, ◌+◌, >>=-eq-ok, sym, ok_unique, ◌∷◌, ◌&&◌,
  suc, length, none, ◌++◌, String, err, some, if◌then◌else◌, ok, ℕ, ◌≡◌, Result, Option,
}
use mfd.Lab.Experiment.{or_empty, normalize_experiment}
use mfd.Lab.Replay.{
  shock_of, shock_quote, bad_experiment, bad_value, max_mark_age, quotes_at, Decision, ReplayResult,
  Log, Observation, Action, Fixture, replay_observations, replay_experiment, decide, replay_sleeves,
  with_error, decoded,
}
use text.Mathlib.Text.{◌==◌ as str_eq}
use mfd.Lab.Valuation.{sum_of_costs}
use mfd.Lab.Normal.{normalize_experiment-IsNormal, IsNormal}
use mfd.Lab.Net.{value-IsValuation, IsValuation}
use mfd.Lab.Records.{SleeveSnapshot, Quote, Sleeve, Experiment}
use mfd.Decimal.{HasLaws, Decimals}
use mathlib.Core.List.{append-nil, append_assoc}
use mfd.Lab.Value.{value}

module _ (d : Decimals) where
  -- `x * (10000 + bps) / 10000`, by the shock of the symbol, with 0 where it has none.
  abbrev pub shocked_price : List (String × ℤ) → String → d.D → d.D
  shocked_price shocks symbol x =
      d.mul x (d.div (d.from_int (pos 10_000 +ℤ shock_of symbol shocks)) (d.from_int (pos 10_000)))

  -- One quote after the shocks: both prices move, nothing else does.
  pub record IsShocked (shocks : List (String × ℤ)) (q r : Quote d.D) : Type 0 where
    pub moved :
        (r.bid ≡ shocked_price shocks q.symbol q.bid)
        × (r.ask ≡ shocked_price shocks q.symbol q.ask)
    pub unmoved : r ≡ record q { bid = r.bid; ask = r.ask }

  pub data AreShocked (shocks : List (String × ℤ))
      : List (Quote d.D) → List (Quote d.D) → Type 0 where
    shocked_end : AreShocked shocks [] []
    shocked_next :
        {q r : Quote d.D} {qs rs : List (Quote d.D)}
        → IsShocked shocks q r
        → AreShocked shocks qs rs
        → AreShocked shocks (q ∷ qs) (r ∷ rs)

module _ (d : Decimals) (e : Experiment) where
  -- The rule of `review-move-v1`, on the cost of the positions: the result is at least so many
  -- ten-thousandths of it.
  abbrev pub rule : Sleeve d.D → d.D → Action
  rule s pnl =
      if str_eq s.strategy "review-move-v1"
        && (d.is_positive (sum_of_costs d s.positions)
            && d.greater_than_or_equal (d.abs pnl) (
                d.mul (sum_of_costs d s.positions)
                  (d.div (d.from_int e.review_threshold_bps) (d.from_int (pos 10_000)))))
      then Action.review
      else Action.hold

  -- The entry at position `n` for one sleeve; a mark is at most five minutes old.
  pub record IsEntry (n : ℕ) (at : ℤ) (quotes : List (Quote d.D)) (s : Sleeve d.D)
      (x : SleeveSnapshot d.D × Decision d.D) : Type 0 where
    pub valuation : IsValuation d s quotes at (pos 300_000_000_000) x.0
    pub about : (x.1.sleeve ≡ x.0.sleeve) × (x.1.at ≡ x.0.at) × (x.1.strategy ≡ s.strategy)
    pub linked : x.1.snapshot_index ≡ n
    pub action-rule : x.1.action ≡ rule s x.0.unrealized_pnl

  -- One entry for each sleeve, in order.
  pub data Row (at : ℤ) (quotes : List (Quote d.D)) : ℕ → List (Sleeve d.D) → Log d.D → Type 0 where
    row_end : {n : ℕ} → Row at quotes n [] []
    row_next :
        {n : ℕ} {s : Sleeve d.D} {x : SleeveSnapshot d.D × Decision d.D} {ss : List (Sleeve d.D)}
        {xs : Log d.D}
        → IsEntry n at quotes s x
        → Row at quotes (suc n) ss xs
        → Row at quotes n (s ∷ ss) (x ∷ xs)

  -- One row for each observation, in order: with the observation's own quotes where another follows,
  -- with the shocked ones where it is the last.
  pub data Rows (sleeves : List (Sleeve d.D)) : ℕ → List (Observation d.D) → Log d.D → Type 0 where
    rows_end : {n : ℕ} → Rows sleeves n [] []
    rows_last :
        {n : ℕ} {o : Observation d.D} {quotes : List (Quote d.D)} {xs : Log d.D}
        → AreShocked d (or_empty e.final_shock_bps) o.quotes quotes
        → Row o.at quotes n sleeves xs
        → Rows sleeves n (o ∷ []) xs
    rows_next :
        {n : ℕ} {o p : Observation d.D} {os : List (Observation d.D)} {xs ys : Log d.D}
        → Row o.at o.quotes n sleeves xs
        → Rows sleeves (n + length xs) (p ∷ os) ys
        → Rows sleeves n (o ∷ p ∷ os) (xs ++ ys)

shock_quotes-AreShocked :
    (d : Decimals) (shocks : List (String × ℤ)) (qs : List (Quote d.D))
    → AreShocked d shocks qs (map (shock_quote d shocks) qs)
unfolding shock_quote
shock_quotes-AreShocked d shocks [] = shocked_end
shock_quotes-AreShocked d shocks (q ∷ qs) =
    shocked_next (record { moved = (refl, refl); unmoved = refl })
      (shock_quotes-AreShocked d shocks qs)

with_error-ok :
    {E F A : Type 0} (f : E → F) (r : Result E A) {a : A} → with_error f r ≡ ok a → r ≡ ok a
with_error-ok f (ok a) h = cc
with_error-ok f (err e) h = cc

decoded-ok : {A : Type 0} (o : Option A) {a : A} → decoded o ≡ ok a → o ≡ some a
decoded-ok none h = cc
decoded-ok (some a) h = cc

module _ (d : Decimals) (laws : HasLaws d) (e : Experiment) where
  -- Value's basis is the cost of the positions.
  basis-cost :
      (s : Sleeve d.D) (quotes : List (Quote d.D)) (at : ℤ) (snap : SleeveSnapshot d.D)
      → IsValuation d s quotes at max_mark_age snap
      → d.sub snap.market_value snap.unrealized_pnl ≡ sum_of_costs d s.positions
  basis-cost s quotes at snap v =
      rw (← v.cost-sum, laws.add_comm snap.unrealized_pnl (sum_of_costs d s.positions))
        (laws.sub-add (sum_of_costs d s.positions) snap.unrealized_pnl)

  decide-IsEntry :
      (i n : ℕ) (at : ℤ) (quotes : List (Quote d.D)) (s : Sleeve d.D) (snap : SleeveSnapshot d.D)
      → IsValuation d s quotes at max_mark_age snap
      → IsEntry d e n at quotes s (snap, decide d e i at s snap n)
  unfolding decide
  decide-IsEntry i n at quotes s snap v = record {
    valuation = v;
    about = (sym v.identity.0, sym v.identity.1, refl);
    linked = refl;
    action-rule = rw (basis-cost s quotes at snap v) refl;
  }

  replay_sleeves-Row :
      (i : ℕ) (at : ℤ) (quotes : List (Quote d.D)) (ss : List (Sleeve d.D)) (log log' : Log d.D)
      → replay_sleeves d e i at quotes ss log ≡ ok log'
      → (xs : Log d.D) × (log' ≡ log ++ xs) × Row d e at quotes (length log) ss xs
  unfolding replay_sleeves
  replay_sleeves-Row i at quotes [] log log' h =
      ([], rw (ok_unique {r = ok log'} refl (sym h)) (sym (append-nil log)), Row.row_end)
  replay_sleeves-Row i at quotes (s ∷ ss) log log' h =
      let valued = >>=-eq-ok (with_error bad_value (value d s quotes at max_mark_age)) _ h in
      let x : SleeveSnapshot d.D × Decision d.D =
        (valued.0, decide d e i at s valued.0 (length log)) in
      let v =
        value-IsValuation d laws s quotes at max_mark_age valued.0
          (with_error-ok bad_value (value d s quotes at max_mark_age) valued.1) in
      let (xs, eq, row) = replay_sleeves-Row i at quotes ss (log ++ x ∷ []) log' valued.2 in
      (
        x ∷ xs,
        eq ∙ append_assoc log (x ∷ []) xs,
        Row.row_next (decide-IsEntry i (length log) at quotes s valued.0 v)
            (rw (length-snoc log x) at row),
      )

  one_more :
      {sleeves : List (Sleeve d.D)} {n : ℕ} (o : Observation d.D) (os : List (Observation d.D))
      (xs ys : Log d.D)
      → Row d e o.at (quotes_at d e o os) n sleeves xs
      → Rows d e sleeves (n + length xs) os ys
      → Rows d e sleeves n (o ∷ os) (xs ++ ys)
  one_more o [] xs ys row rows_end =
      rw (append-nil xs)
        (rows_last (shock_quotes-AreShocked d (or_empty e.final_shock_bps) o.quotes) row)
  one_more o (p ∷ os) xs ys row rows = rows_next row rows

  replay_observations-Rows :
      (sleeves : List (Sleeve d.D)) (i : ℕ) (os : List (Observation d.D)) (log log' : Log d.D)
      → replay_observations d e sleeves i os log ≡ ok log'
      → (xs : Log d.D) × (log' ≡ log ++ xs) × Rows d e sleeves (length log) os xs
  unfolding replay_observations
  replay_observations-Rows sleeves i [] log log' h =
      ([], rw (ok_unique {r = ok log'} refl (sym h)) (sym (append-nil log)), Rows.rows_end)
  replay_observations-Rows sleeves i (o ∷ os) log log' h =
      let first = >>=-eq-ok (replay_sleeves d e i o.at (quotes_at d e o os) sleeves log) _ h in
      let (xs, eq, row) =
        replay_sleeves-Row i o.at (quotes_at d e o os) sleeves log first.0 first.1 in
      let (ys, eq', rows) = replay_observations-Rows sleeves (suc i) os first.0 log' first.2 in
      (
        xs ++ ys,
        eq' ∙ rw eq (append_assoc log xs ys),
        one_more o os xs ys row (rw (eq, length-append log xs) at rows),
      )

module _ (d : Decimals) (laws : HasLaws d) where
  -- A replay that succeeds has normalized its experiment, and has logged, for each observation of the
  -- fixture and each of its sleeves, in order, one whole valuation of the unchanged holdings and one
  -- decision, which points to that valuation and is `review` exactly by the threshold rule; the last
  -- observation is valued at quotes whose prices are shocked, every other at its own quotes.
  pub replay_experiment-Rows :
      (fixture : Option (Fixture d.D)) (hash : String) (input : Experiment) (r : ReplayResult d.D)
      → replay_experiment d fixture hash input ≡ ok r
      → IsNormal r.experiment
        × ((f : Fixture d.D) × (fixture ≡ some f)
            × Rows d r.experiment f.sleeves 0 f.observations r.log)
  unfolding replay_experiment
  replay_experiment-Rows fixture hash input r h =
      let normal = >>=-eq-ok (with_error bad_experiment (normalize_experiment input)) _ h in
      let found = >>=-eq-ok (decoded fixture) _ normal.2 in
      let logged =
        >>=-eq-ok (replay_observations d normal.0 found.0.sleeves 0 found.0.observations []) _
          found.2 in
      let (xs, eq, rows) =
        replay_observations-Rows d laws normal.0 found.0.sleeves 0 found.0.observations [] logged.0
          logged.1 in
      rw (ok_unique {r = ok r} refl (sym logged.2)) (
        (normalize_experiment-IsNormal input normal.0
            (with_error-ok bad_experiment (normalize_experiment input) normal.1)).0,
        (found.0, decoded-ok fixture found.1, rw eq rows),
      )
