-- ===== src/Demo/Outcomes.antt =====
-- What a lookup's answer means (demoLookupState and DemoReconcile of
-- internal/platform/demo_strategy.go), and what the unique index on unresolved decisions refuses.
use mfd.Demo.Lifecycle.Edges.{is_outcome}
use mfd.Demo.Tables.{set_where, count_active, rows_affected, update_run}
use mfd.Demo.Lookup.{demo_lookup_state}
use mfd.Demo.Records.{
  partially_filled, accepted, rejected, filled, active_intent, DemoArtifact, is_active, Tables,
  Bytes, DemoStrategyRun, Time,
}
use mfd.Demo.Transactions.{intent_row, may_launch, OrderLookup, intent_tx}
use mfd.Demo.Reconcile.{reconciled_state}
use mfd.Prelude.{
  some, ◌⊎◌, none, [], ◌↔◌, ◌≢◌, ◌∷◌, suc, err, arith, ◌<◌, ok, ◌≤◌, String, true, Option, ◌≡◌,
  List, Bool, ℕ,
}

-- A lookup counts as a fill exactly when the broker says Filled (3) and names a position; as a
-- rejection exactly when it says Rejected (4) and names none; as in flight exactly at 1, 2, 11 and
-- 12; as a partial fill exactly at 5 and 10; and it is never held, ready or being submitted.
pub demo_lookup_state_lem :
    (l : OrderLookup)
    → let state = (demo_lookup_state l).0 in
      ((state ≡ filled) ↔ ((l.status_id ≡ 3) × (l.position_ids ≢ [])))
      × ((state ≡ rejected) ↔ ((l.status_id ≡ 4) × (l.position_ids ≡ [])))
      × ((state ≡ accepted)
          ↔ ((l.status_id ≡ 1) ⊎ (l.status_id ≡ 2) ⊎ (l.status_id ≡ 11) ⊎ (l.status_id ≡ 12)))
      × ((state ≡ partially_filled) ↔ ((l.status_id ≡ 5) ⊎ (l.status_id ≡ 10)))
      × (is_outcome state ≡ true)
unfolding demo_lookup_state
demo_lookup_state_lem l = ground arith

-- A decision is reconciled as filled only if the lookup is about the submitted order (where its
-- number is known), reports Filled and names a position.
pub reconciled_state-filled :
    {D : Type 0} (r : DemoStrategyRun D) (l : OrderLookup)
    → (reconciled_state r l).0 ≡ filled
    → (l.status_id ≡ 3)
      × (l.position_ids ≢ [])
      × ((r.broker_order_id ≡ none) ⊎ (r.broker_order_id ≡ some l.order_id))
unfolding reconciled_state demo_lookup_state
reconciled_state-filled r l h = ground arith

module _ {D : Type 0} where
  -- A row that turns `submitting` is one more active row.
  count_active-intent :
      (now : Time) (id : ℕ) (rs : List (DemoStrategyRun D))
      → rows_affected id (may_launch now) rs ≡ 1
      → count_active (set_where id (may_launch now) (intent_row now id) rs) ≡ suc (count_active rs)
  count_active-intent now id [] h = absurd (omega arith)
  count_active-intent now id (r ∷ rs) h = ground (arith, count_active-intent now id rs)

  -- An UPDATE of active rows never makes more of them.
  count_active-le :
      (id : ℕ) (test : DemoStrategyRun D → Bool) (set : DemoStrategyRun D → DemoStrategyRun D)
      (rs : List (DemoStrategyRun D))
      → ((r : DemoStrategyRun D) → test r ≡ true → is_active r.status ≡ true)
      → count_active (set_where id test set rs) ≤ count_active rs
  count_active-le id test set [] h = omega arith
  count_active-le id test set (r ∷ rs) h = ground (arith, h r, count_active-le id test set rs h)

module _ {D C : Type 0} where
  -- While a decision is unresolved the submit intent of a ready, unexpired decision fails with
  -- ErrDemoActiveIntent.
  pub intent_tx_blocked :
      (encrypt : Bytes → Option C) (digest : Bytes → String) (now : Time) (id : ℕ)
      (as' : List DemoArtifact) (t : Tables D C)
      → 0 < count_active t.runs
      → rows_affected id (may_launch now) t.runs ≡ 1
      → intent_tx encrypt digest now id as' t ≡ err active_intent
  unfolding intent_tx update_run
  intent_tx_blocked encrypt digest now id as' t busy one =
      ground (arith, count_active-intent now id t.runs one)

  -- Where one decision at most is unresolved, the unique index refuses no update of unresolved ones.
  pub update_run-settles :
      (id : ℕ) (test : DemoStrategyRun D → Bool) (set : DemoStrategyRun D → DemoStrategyRun D)
      (t : Tables D C)
      → count_active t.runs ≤ 1
      → ((r : DemoStrategyRun D) → test r ≡ true → is_active r.status ≡ true)
      → update_run id test set t
        ≡ ok (record t { runs = set_where id test set t.runs }, rows_affected id test t.runs)
  unfolding update_run
  update_run-settles id test set t h k = ground (arith, count_active-le id test set t.runs k)
