-- ===== src/Lab/Replay.antt =====
-- ReplayExperiment (internal/lab/lab.go). The embedded fixture, decoded, and its hash are arguments.
use mfd.Lab.Value.{value, ValueError}
use mfd.Lab.Records.{SleeveSnapshot, Sleeve, Quote, Experiment}
use mfd.Lab.Experiment.{or_empty, normalize_experiment, ExperimentError}
use mfd.Decimal.{Decimals}
use mfd.Prelude.Int.{◌+ℤ◌, pos, ℤ}
use mfd.Prelude.{
  length, ◌++◌, none, map, suc, ◌&&◌, [], some, if◌then◌else◌, err, ℕ, ok, ◌∷◌, Bool, Option,
  String, List, Result, ◌>>=◌,
}
use text.Mathlib.Text.{◌==◌ as str_eq}

pub record Observation (D : Type 0) : Type 0 where
  pub at : ℤ
  pub quotes : List (Quote D)

pub record Fixture (D : Type 0) : Type 0 where
  pub sleeves : List (Sleeve D)
  pub observations : List (Observation D)

pub data Action : Type 0 where
  hold review : Action

-- The three texts; two of them print the threshold as a percentage.
pub data Reason (D : Type 0) : Type 0 where
  fixed_holdings : Reason D
  move_reached move_below : D → Reason D

-- `id` is the text "sleeve-i".
pub record Decision (D : Type 0) : Type 0 where
  pub id : String × ℕ
  pub sleeve : String
  pub at : ℤ
  pub actor : String
  pub strategy : String
  pub action : Action
  pub reason : Reason D
  pub checks : List String
  pub snapshot_index : ℕ

-- `Snapshots` and `Decisions`, which grow together.
abbrev pub Log : Type 0 → Type 0
Log D = List (SleeveSnapshot D × Decision D)

-- Named `Result` in the source.
pub record ReplayResult (D : Type 0) : Type 0 where
  pub dataset_hash : String
  pub valuation_version : String
  pub experiment : Experiment
  pub log : Log D

pub data ReplayError : Type 0 where
  bad_experiment : ExperimentError → ReplayError
  bad_fixture : ReplayError
  bad_value : ValueError → ReplayError

abbrev pub with_error : {E F A : Type 0} → (E → F) → Result E A → Result F A
with_error f (ok a) = ok a
with_error f (err e) = err (f e)

abbrev pub decoded : {A : Type 0} → Option A → Result ReplayError A
decoded none = err bad_fixture
decoded (some a) = ok a

-- A map's entry, 0 where there is none.
abbrev pub shock_of : String → List (String × ℤ) → ℤ
shock_of symbol [] = pos 0
shock_of symbol ((key, bps) ∷ rest) = if str_eq key symbol then bps else shock_of symbol rest

-- `5*time.Minute`.
abbrev pub max_mark_age : ℤ
max_mark_age = pos 300_000_000_000

abbrev pub decision_checks : List String
decision_checks =
    "USD unlevered long positions" ∷ "Valid bid/ask within replay freshness limit"
    ∷ "Execution unavailable in fixture mode" ∷ []

module _ (d : Decimals) where
  abbrev pub factor : ℤ → d.D
  factor bps = d.div (d.from_int (pos 10_000 +ℤ bps)) (d.from_int (pos 10_000))

  unfoldable pub shock_quote : List (String × ℤ) → Quote d.D → Quote d.D
  shock_quote shocks q = record q {
    bid = d.mul q.bid (factor (shock_of q.symbol shocks));
    ask = d.mul q.ask (factor (shock_of q.symbol shocks));
  }

  -- Only the last observation is shocked.
  abbrev pub quotes_at : Experiment → Observation d.D → List (Observation d.D) → List (Quote d.D)
  quotes_at e o [] = map (shock_quote (or_empty e.final_shock_bps)) o.quotes
  quotes_at e o (next ∷ rest) = o.quotes

  abbrev pub threshold : Experiment → d.D
  threshold e = d.div (d.from_int e.review_threshold_bps) (d.from_int (pos 10_000))

  abbrev pub percentage : Experiment → d.D
  percentage e = d.div (d.from_int e.review_threshold_bps) (d.from_int (pos 100))

  -- The unrealized move reached the threshold.
  abbrev pub has_reached : Experiment → SleeveSnapshot d.D → Bool
  has_reached e snap =
      let basis = d.sub snap.market_value snap.unrealized_pnl in
      d.is_positive basis
      && d.greater_than_or_equal (d.abs snap.unrealized_pnl) (d.mul basis (threshold e))

  abbrev pub is_review_move : String → Bool
  is_review_move strategy = str_eq strategy "review-move-v1"

  unfoldable pub decide : Experiment → ℕ → ℤ → Sleeve d.D → SleeveSnapshot d.D → ℕ → Decision d.D
  decide e i at s snap index = record {
    id = (s.id, i);
    sleeve = s.id;
    at = at;
    actor = "fixture-worker";
    strategy = s.strategy;
    action = if is_review_move s.strategy && has_reached e snap then Action.review else Action.hold;
    reason =
        if is_review_move s.strategy
        then (if has_reached e snap then move_reached (percentage e) else move_below (percentage e))
        else fixed_holdings;
    checks = decision_checks;
    snapshot_index = index;
  }

  -- The inner loop.
  unfoldable pub replay_sleeves :
      Experiment
      → ℕ
      → ℤ
      → List (Quote d.D)
      → List (Sleeve d.D)
      → Log d.D
      → Result ReplayError (Log d.D)
  replay_sleeves e i at quotes [] log = ok log
  replay_sleeves e i at quotes (s ∷ ss) log = do
    snap ← with_error bad_value (value d s quotes at max_mark_age)
    replay_sleeves e i at quotes ss (log ++ (snap, decide e i at s snap (length log)) ∷ [])

  -- The outer loop.
  unfoldable pub replay_observations :
      Experiment
      → List (Sleeve d.D)
      → ℕ
      → List (Observation d.D)
      → Log d.D
      → Result ReplayError (Log d.D)
  replay_observations e sleeves i [] log = ok log
  replay_observations e sleeves i (o ∷ os) log = do
    log' ← replay_sleeves e i o.at (quotes_at e o os) sleeves log
    replay_observations e sleeves (suc i) os log'

  unfoldable pub replay_experiment :
      Option (Fixture d.D) → String → Experiment → Result ReplayError (ReplayResult d.D)
  replay_experiment fixture hash input = do
    experiment ← with_error bad_experiment (normalize_experiment input)
    decoded_fixture ← decoded fixture
    log ← replay_observations experiment decoded_fixture.sleeves 0 decoded_fixture.observations []
    ok (record {
      dataset_hash = hash;
      valuation_version = "usd-long-spot-mid-v1";
      experiment = experiment;
      log = log;
    })
