-- ===== src/Broker/Evidence.antt =====
-- What the tables of internal/platform/broker.go record, and what a binding rests on.
use mfd.Prelude.{
  ◌∙◌, sym, fail_if, ◌>>◌, ◌>>=◌, ℕ, String, Bool, true, false, Option, none, some, List, ◌∷◌, ◌≡◌,
  refl, Result, ok, err, All, arith, any_by, ◌==◌, ◌&&◌, All-map,
}
use mfd.Demo.Records.{Bytes}
use mfd.Broker.Store.{persist_tx, Stamp, insert_snapshot, snapshot_row, Reading, sync_event}
use mfd.Broker.Records.{
  same_environment_refl, Environment, BrokerTables, BrokerError, SnapshotRow, SyncEvent,
  same_environment,
}

abbrev pub is_of : {C : Type 0} → Environment → SnapshotRow C → Bool
is_of environment r = same_environment r.environment environment

-- The snapshot that an event names is a row of its environment, and such an event is a success.
abbrev pub IsLinked : {C : Type 0} → List (SnapshotRow C) → SyncEvent → Type 0
IsLinked rows e =
    (id : ℕ)
    → e.snapshot_id ≡ some id
    → (e.result ≡ "ok")
      × (e.http_status ≡ 200)
      × (any_by (λ r. r.id == id && is_of e.environment r) rows ≡ true)

abbrev pub names : ℕ → Option ℕ → Bool
names id none = false
names id (some i) = i == id

-- An event names the row.
abbrev pub IsRecorded : {C : Type 0} → List SyncEvent → SnapshotRow C → Type 0
IsRecorded events r = any_by (λ e. names r.id e.snapshot_id) events ≡ true

pub record IsAudited {C : Type 0} (t : BrokerTables C) : Type 0 where
  pub linked : All (IsLinked t.snapshots) t.events
  pub recorded : All (IsRecorded t.events) t.snapshots

any_by-cons :
    {A : Type 0} (p : A → Bool) (x : A) (xs : List A)
    → any_by p xs ≡ true
    → any_by p (x ∷ xs) ≡ true
any_by-cons p x xs h = ground (arith, h)

-- Whether a read gave a portfolio.
abbrev pub succeeded : {D : Type 0} → Reading D → Bool
succeeded (ok _) = true
succeeded (err e) = false

-- One transaction inserts an event, and with a success the row that the event names.
pub data Persisted {C : Type 0} (success : Bool) (environment : Environment) (t u : BrokerTables C)
    : Type 0 where
  event_only :
      (e : SyncEvent)
      → success ≡ false
      → e.snapshot_id ≡ none
      → u ≡ record { snapshots = t.snapshots; events = e ∷ t.events }
      → Persisted success environment t u
  with_row :
      (r : SnapshotRow C) (e : SyncEvent)
      → is_of environment r ≡ true
      → is_of e.environment r ≡ true
      → e.snapshot_id ≡ some r.id
      → (e.result ≡ "ok") × (e.http_status ≡ 200)
      → u ≡ record { snapshots = r ∷ t.snapshots; events = e ∷ t.events }
      → Persisted success environment t u

module _ {D C : Type 0} (encrypt : Bytes → Option C) (digest : Bytes → String) where
  pub persist_tx-Persisted :
      (stamp : Stamp) (environment : Environment) (reading : Reading D) (t u : BrokerTables C)
      → persist_tx encrypt digest stamp environment reading t ≡ ok u
      → Persisted (succeeded reading) environment t u
  unfolding persist_tx insert_snapshot
  persist_tx-Persisted stamp environment (err e) t u h =
      event_only (sync_event {D = D} {C = C} encrypt digest stamp environment (err e) none) refl
        refl (ground (arith, h))
  persist_tx-Persisted stamp environment (ok (raw, x)) t u h = by_sealed (encrypt raw) h
    where
      by_sealed :
          (o : Option C)
          → ((elim o as (λ _. Result BrokerError (List (SnapshotRow C) × Option ℕ)) [
            | none ↦ err BrokerError.encryption
            | some sealed ↦
                fail_if
                  (any_by (λ r. r.id == stamp.snapshot_id) t.snapshots)
                  BrokerError.duplicate_id
                >> ok (
                  snapshot_row {D = D} encrypt digest stamp environment raw x sealed ∷ t.snapshots,
                  some stamp.snapshot_id,
                )
          ])
              >>= λ p.
                  fail_if (any_by (λ e. e.id == stamp.event_id) t.events) BrokerError.duplicate_id
                  >> ok (record {
                    snapshots = p.0;
                    events =
                        sync_event {D = D} encrypt digest stamp environment (ok (raw, x)) p.1
                        ∷ t.events;
                  }))
            ≡ ok u
          → Persisted true environment t u
      by_sealed none k = cc
      by_sealed (some sealed) k =
          with_row (snapshot_row {D = D} encrypt digest stamp environment raw x sealed)
            (sync_event {D = D} encrypt digest stamp environment (ok (raw, x))
              (some stamp.snapshot_id))
            (same_environment_refl environment) (same_environment_refl environment) refl
            (refl, refl) (ground (arith, k))

module _ {C : Type 0} where
  pub Persisted-IsAudited :
      (success : Bool) (environment : Environment) (t u : BrokerTables C)
      → Persisted success environment t u
      → IsAudited t
      → IsAudited u
  Persisted-IsAudited success environment t u (event_only e failed none_named same) a =
      rw same (record {
        linked = (λ id q. let no : none ≡ some id = sym none_named ∙ q in cc, a.linked);
        recorded = All-map _ _ t.snapshots (λ r. any_by-cons _ e t.events) a.recorded;
      })
  Persisted-IsAudited success environment t u (with_row r e er ee q result same) a =
      rw same (record {
        linked = (
          λ id n. (result.0, result.1, ground (arith, ee, q, n)),
          All-map _ _ t.events
              (λ f l id n. let (x, y, z) = l id n in (x, y, any_by-cons _ r t.snapshots z))
              a.linked,
        );
        recorded = (
          rw q (ground arith),
          All-map _ _ t.snapshots (λ v. any_by-cons _ e t.events) a.recorded,
        );
      })
