-- ===== src/Demo/Reconcile.antt =====
-- DemoReconcile, markDemoUnknown and ReconcilePendingDemo (internal/platform/demo_strategy.go) on a
-- session. `client` is the bound Demo client, if there is one; `sync` is syncDemoAfterOrder's effect
-- on the rest of the BrokerService.
use mfd.Prelude.{
  ℕ, String, Bool, true, false, not, ◌&&◌, ◌||◌, Option, none, some, List, [], ◌∷◌, ◌*◌, ◌==◌,
  if◌then◌else◌, keep, take, reverse, map, ok, err,
}
use mfd.Prelude.Int.{pos, ltb_ℤ, ◌-ℤ◌}
use mfd.Demo.Records.{
  Time, Bytes, RunStatus, is_active, is_submitting, same_status, DemoStrategyRun,
}
use mfd.Demo.Session.{Session, Handler, pure, ◌>>=◌, ◌>>◌, transact, query}
use mfd.Demo.Transactions.{OrderLookup, lookup_tx, unknown_tx}
use mfd.Demo.Lookup.{LookupClient, LookupReply, demo_lookup_state, lookup_demo_order_with_fallback}
use mfd.Demo.Reads.{DemoRunView, demo_run, second, newest_first}

-- `p != nil && *p == n`.
abbrev pub holds : Option ℕ → ℕ → Bool
holds none n = false
holds (some m) n = m == n

-- `p != nil && *p != n`.
abbrev pub differs : Option ℕ → ℕ → Bool
differs none n = false
differs (some m) n = not (m == n)

-- The state that a lookup leads to, unless it is about another order.
unfoldable pub reconciled_state :
    {D : Type 0} → DemoStrategyRun D → OrderLookup → RunStatus × String
reconciled_state run lookup =
    if differs run.broker_order_id lookup.order_id
    then (
      RunStatus.unknown,
      "Broker lookup order ID does not match the submitted order; manual reconciliation required.",
    )
    else demo_lookup_state lookup

-- Nothing that the lookup says is new.
abbrev pub is_settled : {D : Type 0} → DemoStrategyRun D → RunStatus → OrderLookup → Bool
is_settled run state lookup =
    same_status run.status state
    && holds run.broker_status_id lookup.status_id
    && holds run.broker_order_id lookup.order_id

-- A decision that DemoReconcile leaves alone: it is not in flight, or its submission may still be on
-- the wire.
abbrev pub is_untouched : {D : Type 0} → Time → DemoStrategyRun D → Bool
is_untouched now run =
    not (is_active run.status)
    || (is_submitting run.status && ltb_ℤ (now -ℤ run.updated_at) (pos (30 * second)))

abbrev pub is_fill : RunStatus → Bool
is_fill RunStatus.filled = true
is_fill RunStatus.partially_filled = true
is_fill _ = false

module _ {D C B : Type 0} (encrypt : Bytes → Option C) (digest : Bytes → String)
    (sync : B → B) where
  unfoldable pub mark_demo_unknown : ℕ → Time → ℕ → Bytes → Handler (Session D C B) (DemoRunView D)
  mark_demo_unknown id db_now http_status raw = do
    transact (unknown_tx encrypt digest db_now id http_status raw)
    demo_run id

  -- `if state == "filled" || state == "partially_filled" { b.syncDemoAfterOrder(client) }`.
  unfoldable pub sync_after : RunStatus → Handler (Session D C B) (Unit {0})
  sync_after state s = (ok tt, if is_fill state then record s { broker = sync s.broker } else s)

  unfoldable pub apply_lookup :
      DemoRunView D
      → Time
      → OrderLookup
      → Bool
      → ℕ
      → Bytes
      → Handler (Session D C B) (DemoRunView D)
  unfolding sync_after
  apply_lookup view db_now lookup by_order_id http_status raw =
      let (state, reason) = reconciled_state view.run lookup in
      if is_settled view.run state lookup then pure view else do
        transact (
            lookup_tx encrypt digest db_now view.run.id state reason lookup by_order_id http_status
              raw)
        sync_after state
        demo_run view.run.id

  unfoldable pub on_reply :
      DemoRunView D → Time → LookupReply × Bool → Handler (Session D C B) (DemoRunView D)
  unfolding apply_lookup mark_demo_unknown
  on_reply view db_now (reply, by_order_id) = elim reply.result [
    | ok lookup ↦ apply_lookup view db_now lookup by_order_id reply.http_status reply.raw
    | err e ↦
        if is_submitting view.run.status
        then mark_demo_unknown view.run.id db_now reply.http_status reply.raw
        else pure view
  ]

  unfoldable pub demo_reconcile :
      Option LookupClient → ℕ → Time → Time → Handler (Session D C B) (DemoRunView D)
  unfolding on_reply
  demo_reconcile client id now db_now = do
    view ← demo_run id
    if is_untouched now view.run then pure view else elim client [
      | none ↦ pure view
      | some c ↦
          on_reply view db_now (lookup_demo_order_with_fallback c id view.run.broker_order_id)
    ]

  -- The loop of ReconcilePendingDemo, which stops at the first failure.
  unfoldable pub reconcile_all :
      Option LookupClient → Time → Time → List ℕ → Handler (Session D C B) (Unit {0})
  reconcile_all client now db_now [] = pure tt
  reconcile_all client now db_now (id ∷ ids) = do
    demo_reconcile client id now db_now
    reconcile_all client now db_now ids

  -- `WHERE status IN (…) ORDER BY created_at LIMIT 10`.
  unfoldable pub reconcile_pending_demo :
      Option LookupClient → Time → Time → Handler (Session D C B) (Unit {0})
  unfolding reconcile_all
  reconcile_pending_demo client now db_now = do
    ids ← query (λ t. ok (
        map (λ r. r.id) (take 10 (reverse (newest_first (keep (λ r. is_active r.status) t.runs))))))
    reconcile_all client now db_now ids
