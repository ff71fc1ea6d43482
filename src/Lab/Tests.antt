-- ===== src/Lab/Tests.antt =====
-- The fixture lab on concrete inputs, over whole decimals.
use mfd.Lab.Replay.{
  replay_experiment, replay_observations, replay_sleeves, decide, shock_quote, Fixture, Reason,
  Action, ReplayResult, decision_checks,
}
use mfd.Lab.Rows.{Rows, replay_experiment-Rows}
use mfd.Lab.Normal.{normalize_experiment-IsNormal, IsNormal}
use mfd.Decimal.{Le}
use mfd.Lab.Net.{value-IsValuation, value-liquidation_le, IsHalved, IsValuation}
use mfd.Lab.Records.{Quote, Experiment, Sleeve, SleeveSnapshot}
use mfd.Lab.Experiment.{
  normalize_experiment, trim_space, trim_left, trim_right, put_back, is_space, check_shocks,
  is_supported,
}
use mfd.Lab.Value.{stale_mark, value, value_positions, by_symbol, check_mark}
use mfd.Prelude.Int.{saturate, negsuc, pos, ℤ, ◌+ℤ◌, ◌-ℤ◌, ◌*ℤ◌}
use mfd.Decimal.Whole.{whole-HasLaws, whole, div_ℤ}
use mfd.Prelude.{some, err, [], refl, ◌∷◌, ok, ◌≡◌, All}

abbrev padded : Experiment
padded = record {
  name = b' ' ∷ b'u' ∷ b'p' ∷ b'\n' ∷ [];
  final_shock_bps = some (("AAPL", pos 250) ∷ ("MSFT", negsuc 99) ∷ []);
  review_threshold_bps = pos 0;
}

abbrev trimmed : Experiment
trimmed = record padded { name = b'u' ∷ b'p' ∷ []; review_threshold_bps = pos 100 }

normalized : normalize_experiment padded ≡ ok trimmed
unfolding normalize_experiment trim_space trim_left trim_right put_back is_space check_shocks
    is_supported
normalized = refl

normalize_experiment-IsNormal_example :
    IsNormal trimmed × (normalize_experiment trimmed ≡ ok trimmed)
normalize_experiment-IsNormal_example = normalize_experiment-IsNormal padded trimmed normalized

abbrev apple : Quote ℤ
apple = record { symbol = "AAPL"; currency = "USD"; bid = pos 198; ask = pos 202; at = pos 1_000 }

abbrev microsoft : Quote ℤ
microsoft = record { symbol = "MSFT"; currency = "USD"; bid = pos 400; ask = pos 400; at = pos 900 }

abbrev sleeve : Sleeve ℤ
sleeve = record {
  id = "growth";
  cash = pos 50;
  strategy = "hold";
  positions =
      record { symbol = "MSFT"; currency = "USD"; units = pos 2; cost = pos 700 }
      ∷ record { symbol = "AAPL"; currency = "USD"; units = pos 3; cost = pos 650 }
      ∷ [];
}

abbrev worth : SleeveSnapshot ℤ
worth = record {
  sleeve = "growth";
  at = pos 1_100;
  currency = "USD";
  cash = pos 50;
  market_value = pos 1_400;
  equity = pos 1_450;
  liquidation_equity = pos 1_444;
  unrealized_pnl = pos 50;
  positions = sleeve.positions;
  quotes = microsoft ∷ apple ∷ [];
}

valued : value whole sleeve (apple ∷ microsoft ∷ []) (pos 1_100) (pos 300) ≡ ok worth
unfolding value value_positions by_symbol check_mark saturate ◌+ℤ◌ ◌-ℤ◌ ◌*ℤ◌ div_ℤ
valued = refl

stale : value whole sleeve (apple ∷ microsoft ∷ []) (pos 1_300) (pos 300) ≡ err (stale_mark "MSFT")
unfolding value value_positions by_symbol check_mark saturate ◌+ℤ◌ ◌-ℤ◌ ◌*ℤ◌ div_ℤ
stale = refl

value-IsValuation_example :
    IsValuation whole sleeve (apple ∷ microsoft ∷ []) (pos 1_100) (pos 300) worth
value-IsValuation_example =
    value-IsValuation whole whole-HasLaws sleeve (apple ∷ microsoft ∷ []) (pos 1_100) (pos 300)
      worth valued

halved : All (IsHalved whole) worth.quotes
unfolding ◌+ℤ◌ div_ℤ
halved = (refl, (refl, tt))

value-liquidation_le_example : Le whole worth.liquidation_equity worth.equity
value-liquidation_le_example =
    value-liquidation_le whole whole-HasLaws sleeve (apple ∷ microsoft ∷ []) (pos 1_100) (pos 300)
      worth valued halved

abbrev fixture : Fixture ℤ
fixture = record {
  sleeves = record sleeve { strategy = "review-move-v1" } ∷ [];
  observations = record { at = pos 1_100; quotes = apple ∷ microsoft ∷ [] } ∷ [];
}

abbrev unshocked : Experiment
unshocked = record trimmed { final_shock_bps = some (("AAPL", pos 250) ∷ []) }

abbrev replayed : ReplayResult ℤ
replayed = record {
  dataset_hash = "hash";
  valuation_version = "usd-long-spot-mid-v1";
  experiment = unshocked;
  log =
      (
        worth,
        record {
          id = ("growth", 0);
          sleeve = "growth";
          at = pos 1_100;
          actor = "fixture-worker";
          strategy = "review-move-v1";
          action = Action.review;
          reason = Reason.move_reached (pos 1);
          checks = decision_checks;
          snapshot_index = 0;
        },
      )
      ∷ [];
}

replay : replay_experiment whole (some fixture) "hash" unshocked ≡ ok replayed
unfolding replay_experiment replay_observations replay_sleeves decide shock_quote
    normalize_experiment trim_space trim_left trim_right put_back is_space check_shocks is_supported
    value value_positions by_symbol check_mark saturate ◌+ℤ◌ ◌-ℤ◌ ◌*ℤ◌ div_ℤ
replay = refl

replay_experiment-Rows_example :
    IsNormal replayed.experiment
    × ((f : Fixture ℤ) × (some fixture ≡ some f)
        × Rows whole replayed.experiment f.sleeves 0 f.observations replayed.log)
replay_experiment-Rows_example =
    replay_experiment-Rows whole whole-HasLaws (some fixture) "hash" unshocked replayed replay
