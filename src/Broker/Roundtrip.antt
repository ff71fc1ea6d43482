-- ===== src/Broker/Roundtrip.antt =====
-- recordSuccess and History (internal/platform/broker.go): what is stored is read back.
use mfd.Prelude.{
  All-map, ap, ◌∙◌, ℕ, String, true, false, Option, some, List, [], ◌∷◌, ◌≡◌, refl, Result, ok, err,
  All, arith, >>=-eq-ok, eq_iff,
}
use mfd.Prelude.Int.{ℤ, ltb_ℤ, leb_ℤ}
use mfd.Demo.Records.{Bytes}
use mfd.Demo.Provider.{Snapshot}
use mfd.Demo.Session.{stored}
use mfd.Broker.Sync.{record_success, bind_after, is_taken}
use mfd.Broker.Store.{persist, persist_tx, settle, Stamp, insert_snapshot, snapshot_row}
use mfd.Broker.Status.{snapshots_of, latest_first}
use mfd.Broker.Sorted.{All-keep, All-latest_first, All-take, insert_latest-front}
use mfd.Broker.History.{BrokerSnapshot, snapshot_item, history_of, open_rows}
use mfd.Broker.Archive.{IsIntact, IsCipher, open_rows-IsIntact, insert_snapshot-sealed}
use mfd.Broker.Records.{
  same_environment_refl, Environment, slot, put, BrokerService, BrokerTables, BrokerError,
  SnapshotRow, same_environment,
}
use text.Mathlib.Text.{◌==◌ as str_eq}

leb_of_ltb : (a b : ℤ) → ltb_ℤ a b ≡ true → leb_ℤ a b ≡ true
leb_of_ltb a b h = ground (arith, h)

-- The newest row of an environment comes first.
snapshots_of-first :
    {C : Type 0} (environment : Environment) (row : SnapshotRow C) (s t : BrokerService C)
    → same_environment row.environment environment ≡ true
    → t.tables.snapshots ≡ row ∷ s.tables.snapshots
    → All (λ r. leb_ℤ r.fetched_at row.fetched_at ≡ true) s.tables.snapshots
    → snapshots_of environment t ≡ row ∷ snapshots_of environment s
unfolding latest_first
snapshots_of-first environment row s t own e older =
    rw (e, own)
      (insert_latest-front (λ r. r.fetched_at) row _
        (All-latest_first _ (λ r. r.fetched_at) _
          (All-keep _ (λ r. same_environment r.environment environment) _ older)))

module _ {D C : Type 0} (encrypt : Bytes → Option C) (decrypt : C → Option Bytes)
    (digest : Bytes → String) (parse : Bytes → Option (Snapshot D)) where
  -- What a recorded success stored: one more row, and the binding.
  record_success-stored :
      (client : ℕ) (environment : Environment) (raw : Bytes) (x : Snapshot D) (stamp : Stamp)
      (s t : BrokerService C)
      → s.faults ≡ []
      → is_taken client (slot environment s.bound) ≡ false
      → record_success encrypt digest client environment raw x stamp s ≡ (ok tt, t)
      → (u : BrokerTables C) × (persist_tx encrypt digest stamp environment (ok (raw, x)) s.tables
          ≡ ok u)
        × (t.tables ≡ u)
        × (t.bound ≡ put environment client s.bound)
        × (t.faults ≡ [])
  unfolding record_success persist
  record_success-stored client environment raw x stamp s t f free h =
      by_tx _ refl (rw (f, record_success, free) at h)
    where
      by_tx :
          (r : Result BrokerError (BrokerTables C))
          → persist_tx encrypt digest stamp environment (ok (raw, x)) s.tables ≡ r
          → bind_after environment client (settle stored r (record s { faults = [] })) ≡ (ok tt, t)
          → (u : BrokerTables C) × (persist_tx encrypt digest stamp environment
                (ok (raw, x))
                s.tables
              ≡ ok u)
            × (t.tables ≡ u)
            × (t.bound ≡ put environment client s.bound)
            × (t.faults ≡ [])
      by_tx (ok u) e k = (u, e, ground (arith, k), ground (arith, k), ground (arith, k))
      by_tx (err failure) e k = cc

  persist_tx-sealed :
      (stamp : Stamp) (environment : Environment) (raw : Bytes) (x : Snapshot D)
      (t u : BrokerTables C)
      → persist_tx encrypt digest stamp environment (ok (raw, x)) t ≡ ok u
      → (sealed : C) × (encrypt raw ≡ some sealed)
        × (u.snapshots
            ≡ snapshot_row {D = D} encrypt digest stamp environment raw x sealed ∷ t.snapshots)
  unfolding persist_tx
  persist_tx-sealed stamp environment raw x t u h =
      let (out, e, q) =
        >>=-eq-ok (insert_snapshot encrypt digest stamp environment (ok (raw, x)) t.snapshots) _
          h in
      let same : u.snapshots ≡ out.0 = ground (arith, q) in
      let (sealed, s, r) =
        insert_snapshot-sealed encrypt decrypt digest parse stamp environment raw x t.snapshots out
          e in
      (sealed, s, same ∙ r)

  -- The history of rows that begin with an intact one.
  open_rows-first :
      (environment : Environment) (row : SnapshotRow C) (rows : List (SnapshotRow C))
      (i : IsIntact encrypt decrypt digest parse row)
      → All (IsIntact encrypt decrypt digest parse) rows
      → (items : List (BrokerSnapshot D)) × (open_rows decrypt digest parse environment (row ∷ rows)
          ≡ ok (snapshot_item environment row i.portfolio ∷ items))
  unfolding open_rows
  open_rows-first environment row rows i v =
      let (items, e, m) = open_rows-IsIntact encrypt decrypt digest parse environment rows v in
      let same : str_eq (digest i.raw) row.response_sha256 ≡ true =
        ground (arith, i.digests, eq_iff (digest i.raw) row.response_sha256) in
      (items, rw (i.opens, open_rows, i.parses, same, e) refl)

  -- Where the database carries out every call and all rows of the table open, parse and are strictly
  -- older: a portfolio that recordSuccess has stored for an environment that is free or bound to the
  -- client is the first that History returns, as it was read, with its digest and time; and the
  -- environment is bound to the client. The cipher opens what it sealed.
  pub record_success-history_of :
      IsCipher encrypt decrypt
      → (client : ℕ) (environment : Environment) (raw : Bytes) (x : Snapshot D) (stamp : Stamp)
        (s t : BrokerService C)
      → parse raw ≡ some x
      → s.faults ≡ []
      → is_taken client (slot environment s.bound) ≡ false
      → All (IsIntact encrypt decrypt digest parse) s.tables.snapshots
      → All (λ r. ltb_ℤ r.fetched_at stamp.now ≡ true) s.tables.snapshots
      → record_success encrypt digest client environment raw x stamp s ≡ (ok tt, t)
      → (item : BrokerSnapshot D) × (items : List (BrokerSnapshot D)) × ((history_of decrypt digest
            parse environment t).0
          ≡ ok (item ∷ items))
        × (item.portfolio ≡ x)
        × (item.source_sha256 ≡ digest raw)
        × (item.fetched_at ≡ stamp.now)
        × (t.bound ≡ put environment client s.bound)
  unfolding history_of
  record_success-history_of cipher client environment raw x stamp s t g f free intact older h =
      let (u, tx, same, bound, faults) =
        record_success-stored client environment raw x stamp s t f free h in
      let (sealed, e, rows) = persist_tx-sealed stamp environment raw x s.tables u tx in
      let row = snapshot_row {D = D} encrypt digest stamp environment raw x sealed in
      let first =
        snapshots_of-first environment row s t (same_environment_refl environment)
          (ap (λ v. v.snapshots) same ∙ rows)
          (All-map _ _ s.tables.snapshots (λ r k. leb_of_ltb r.fetched_at stamp.now k) older) in
      let i : IsIntact encrypt decrypt digest parse row = record {
        raw = raw;
        portfolio = x;
        opens = cipher.opens raw sealed e;
        digests = refl;
        parses = g;
      } in
      let (items, o) = open_rows-first environment row _ i (
        All-take _ 29 _ (
          All-latest_first _ (λ r. r.fetched_at) _
            (All-keep _ (λ r. same_environment r.environment environment) _ intact))) in
      (
        snapshot_item environment row x,
        items,
        rw (faults, history_of, first, o) refl,
        refl,
        refl,
        refl,
        bound,
      )
