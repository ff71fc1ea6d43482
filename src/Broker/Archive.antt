-- ===== src/Broker/Archive.antt =====
-- The stored portfolios (internal/platform/broker.go) are readable, and read back as they were.
use mathlib.Core.List.{Perm}
use mfd.Prelude.{
  ◌++◌, length, ◌⊎◌, ◌≤◌, keep, ◌>>◌, ◌==◌, any_by, fail_if, Result, none, err, >>=-eq-ok, take, ℕ,
  String, true, Option, some, List, [], ◌∷◌, ◌≡◌, refl, ok, All, arith, eq_iff,
}
use mfd.Broker.Evidence.{is_of}
use mfd.Broker.Sorted.{
  Descending, take-split, latest_first-perm, latest_first-Descending, All-keep, All-latest_first,
  All-take,
}
use mfd.Broker.Status.{snapshots_of}
use mfd.Broker.Bindings.{Consistent}
use mfd.Demo.Session.{stored, next_fault}
use mfd.Broker.Turns.{Turns-keep, Genuine, Turn}
use mfd.Broker.Sessions.{broker_calls-Turns, broker_calls, CallIsHonest, BrokerCall}
use mfd.Broker.Store.{snapshot_row, Reading, Stamp, insert_snapshot, persist_tx}
use mfd.Demo.Records.{Bytes}
use mfd.Demo.Provider.{Snapshot}
use mfd.Broker.History.{history_of, BrokerSnapshot, snapshot_item, open_rows}
use mfd.Broker.Records.{
  same_environment, BrokerError, BrokerTables, BrokerService, Environment, SnapshotRow,
}
use text.Mathlib.Text.{◌==◌ as str_eq}

-- Opening what the cipher sealed gives back what was sealed.
pub record IsCipher {C : Type 0} (encrypt : Bytes → Option C) (decrypt : C → Option Bytes)
    : Type 0 where
  pub opens : (raw : Bytes) (sealed : C) → encrypt raw ≡ some sealed → decrypt sealed ≡ some raw

-- Of the table's rows of the environment, the 30 newest, or all if there are fewer, newest first. Which
-- of two rows of one time is newer is left open.
pub record AreNewest {C : Type 0} (environment : Environment) (table picked : List (SnapshotRow C))
    : Type 0 where
  pub older : List (SnapshotRow C)
  pub are_own : Perm (picked ++ older) (keep (is_of environment) table)
  pub newest_first : Descending (λ r. r.fetched_at) (picked ++ older)
  pub are_30 : (length picked ≡ 30) ⊎ ((older ≡ []) × (length picked ≤ 30))

snapshots_of-AreNewest :
    {C : Type 0} (environment : Environment) (s : BrokerService C)
    → AreNewest environment s.tables.snapshots (take 30 (snapshots_of environment s))
snapshots_of-AreNewest environment s =
    let own = keep (is_of environment) s.tables.snapshots in
    let (older, same, size) = take-split 30 (snapshots_of environment s) in
    record {
      older = older;
      are_own = rw same (latest_first-perm (λ r. r.fetched_at) own);
      newest_first = rw same (latest_first-Descending (λ r. r.fetched_at) own);
      are_30 = size;
    }

module _ {D C : Type 0} (encrypt : Bytes → Option C) (decrypt : C → Option Bytes)
    (digest : Bytes → String) (parse : Bytes → Option (Snapshot D)) where
  -- The row's ciphertext opens to a response with the row's digest, which parses.
  pub record IsIntact (row : SnapshotRow C) : Type 0 where
    pub raw : Bytes
    pub portfolio : Snapshot D
    pub opens : decrypt row.sealed ≡ some raw
    pub digests : digest raw ≡ row.response_sha256
    pub parses : parse raw ≡ some portfolio

  -- The items are the rows, opened, in order.
  pub data Mirrors (environment : Environment)
      : List (SnapshotRow C) → List (BrokerSnapshot D) → Type 0 where
    no_rows : Mirrors environment [] []
    one_more :
        {row : SnapshotRow C} {rows : List (SnapshotRow C)} {items : List (BrokerSnapshot D)}
        → (intact : IsIntact row) → Mirrors environment rows items
        → Mirrors environment (row ∷ rows) (snapshot_item environment row intact.portfolio ∷ items)

  pub open_rows-IsIntact :
      (environment : Environment) (rows : List (SnapshotRow C))
      → All IsIntact rows
      → (items : List (BrokerSnapshot D)) × (open_rows decrypt digest parse environment rows
          ≡ ok items)
        × Mirrors environment rows items
  unfolding open_rows
  open_rows-IsIntact environment [] h = ([], refl, no_rows)
  open_rows-IsIntact environment (row ∷ rows) h =
      let (items, e, m) = open_rows-IsIntact environment rows h.1 in
      let i = h.0 in
      let same : str_eq (digest i.raw) row.response_sha256 ≡ true =
        ground (arith, i.digests, eq_iff (digest i.raw) row.response_sha256) in
      (_, rw (i.opens, open_rows, i.parses, same, e) refl, one_more i m)

  -- A read that succeeded is inserted as one row, sealed.
  pub insert_snapshot-sealed :
      (stamp : Stamp) (environment : Environment) (raw : Bytes) (x : Snapshot D)
      (rows : List (SnapshotRow C)) (out : List (SnapshotRow C) × Option ℕ)
      → insert_snapshot encrypt digest stamp environment (ok (raw, x)) rows ≡ ok out
      → (sealed : C) × (encrypt raw ≡ some sealed)
        × (out.0 ≡ snapshot_row {D = D} encrypt digest stamp environment raw x sealed ∷ rows)
  unfolding insert_snapshot
  insert_snapshot-sealed stamp environment raw x rows out h = by_sealed (encrypt raw) refl h
    where
      by_sealed :
          (o : Option C)
          → encrypt raw ≡ o
          → (elim o as (λ _. Result BrokerError (List (SnapshotRow C) × Option ℕ)) [
            | none ↦ err BrokerError.encryption
            | some sealed ↦
                fail_if (any_by (λ r. r.id == stamp.snapshot_id) rows) BrokerError.duplicate_id
                >> ok (
                  snapshot_row {D = D} encrypt digest stamp environment raw x sealed ∷ rows,
                  some stamp.snapshot_id,
                )
          ])
            ≡ ok out
          → (sealed : C) × (encrypt raw ≡ some sealed)
            × (out.0 ≡ snapshot_row {D = D} encrypt digest stamp environment raw x sealed ∷ rows)
      by_sealed none e k = cc
      by_sealed (some sealed) e k = (sealed, e, ground (arith, k))

  insert_snapshot-IsIntact :
      (cipher : IsCipher encrypt decrypt) (stamp : Stamp) (environment : Environment)
      (reading : Reading D) (rows : List (SnapshotRow C)) (out : List (SnapshotRow C) × Option ℕ)
      → Genuine parse reading
      → insert_snapshot encrypt digest stamp environment reading rows ≡ ok out
      → All IsIntact rows
      → All IsIntact out.0
  unfolding insert_snapshot
  insert_snapshot-IsIntact cipher stamp environment (err e) rows out g h v =
      let same : out ≡ (rows, none) = ground (arith, h) in rw same v
  insert_snapshot-IsIntact cipher stamp environment (ok (raw, x)) rows out g h v =
      let (sealed, e, same) = insert_snapshot-sealed stamp environment raw x rows out h in
      rw same (
        record {
          raw = raw;
          portfolio = x;
          opens = cipher.opens raw sealed e;
          digests = refl;
          parses = g;
        },
        v,
      )

  persist_tx-IsIntact :
      (cipher : IsCipher encrypt decrypt) (stamp : Stamp) (environment : Environment)
      (reading : Reading D) (t u : BrokerTables C)
      → Genuine parse reading
      → persist_tx encrypt digest stamp environment reading t ≡ ok u
      → All IsIntact t.snapshots
      → All IsIntact u.snapshots
  unfolding persist_tx
  persist_tx-IsIntact cipher stamp environment reading t u g h v =
      let (out, e, q) =
        >>=-eq-ok (insert_snapshot encrypt digest stamp environment reading t.snapshots) _ h in
      let same : u.snapshots ≡ out.0 = ground (arith, q) in
      rw same (insert_snapshot-IsIntact cipher stamp environment reading t.snapshots out g e v)

  Turn-IsIntact :
      IsCipher encrypt decrypt
      → (s t : BrokerService C) → Turn encrypt digest parse s t
      → All IsIntact s.tables.snapshots
      → All IsIntact t.tables.snapshots
  Turn-IsIntact cipher s t (Turn.idle f e) v = rw e v
  Turn-IsIntact cipher s t (Turn.attempted client since lag h e) v = rw e v
  Turn-IsIntact cipher s t (Turn.clashed client h e) v = rw e v
  Turn-IsIntact cipher s t (Turn.noted stamp environment reading u f g h e) v =
      rw e (persist_tx-IsIntact cipher stamp environment reading s.tables u g h v)
  Turn-IsIntact cipher s t (Turn.bound_to client environment stamp raw x u f g h free m e) v =
      rw e (persist_tx-IsIntact cipher stamp environment (ok (raw, x)) s.tables u g h v)

  history_of-Mirrors :
      (environment : Environment) (s : BrokerService C)
      → All IsIntact s.tables.snapshots
      → next_fault s.faults ≡ stored
      → (items : List (BrokerSnapshot D)) × ((history_of decrypt digest parse environment s).0
          ≡ ok items)
        × Mirrors environment (take 30 (snapshots_of environment s)) items
  unfolding history_of
  history_of-Mirrors environment s v f =
      let rows = All-take IsIntact 30 _ (
        All-latest_first IsIntact (λ r. r.fetched_at) _
          (All-keep IsIntact (λ r. same_environment r.environment environment) _ v)) in
      let (items, e, m) = open_rows-IsIntact environment _ rows in (items, rw (f, history_of) e, m)

  -- From a table whose rows all open and parse, after any sequence of calls, whatever the provider
  -- answers (with portfolios that parse so) and the database fails to do: where the database answers
  -- the query of History of an environment, it returns rows of that environment, opened: the 30 newest,
  -- or all if there are fewer, newest first. None of them fails the cipher, the digest or the parser.
  pub broker_calls-Mirrors :
      (cipher : IsCipher encrypt decrypt) (cs : List (BrokerCall D)) (s : BrokerService C)
      (environment : Environment)
      → All (CallIsHonest parse) cs
      → Consistent s
      → All IsIntact s.tables.snapshots
      → next_fault (broker_calls encrypt digest cs s).faults ≡ stored
      → let t = broker_calls encrypt digest cs s in
        (items : List (BrokerSnapshot D)) × (rows : List (SnapshotRow C)) × ((history_of decrypt
            digest parse environment t).0
          ≡ ok items)
        × Mirrors environment rows items
        × AreNewest environment t.tables.snapshots rows
  broker_calls-Mirrors cipher cs s environment honest c v f =
      let t = broker_calls encrypt digest cs s in
      let (items, e, m) =
        history_of-Mirrors environment t
          (Turns-keep (λ b. All IsIntact b.tables.snapshots) (Turn-IsIntact cipher)
            (broker_calls-Turns encrypt digest parse cs s honest c) v)
          f in
      (items, take 30 (snapshots_of environment t), e, m, snapshots_of-AreNewest environment t)
