-- ===== src/Jobs/Publishing.antt =====
-- Enqueue and dispatch (internal/platform/platform.go) lose no run, also where JetStream takes a
-- publication for a duplicate.
use mfd.Jobs.Records.{Run, OutboxRow, JobTables, JobState, is_queued}
use mfd.Prelude.{
  ap, sym, ◌∙◌, All, ◌&&◌, ℕ, String, Bool, true, false, List, [], ◌∷◌, none, some, ok, ◌≡◌, refl,
  arith, any_by, map, All-map, if◌then◌else◌, ◌==◌, inl, inr, Option-cases,
}
use mfd.Prelude.Int.{leb_ℤ, ℤ}
use mfd.Jobs.Queue.{
  delivered, unnoted, undelivered, Delivery, publish, note_published, publish_all, dispatch,
  mark_published, is_unpublished, oldest_first, insert_outbox, enqueue_tx, run_by_key, run_by_id,
  queued_run,
}
use mfd.Broker.Sorted.{All-keep, All-take}
use mfd.Lab.Records.{Experiment}
use mfd.Jobs.Calls.{NoneLost, has_run, will_run}

mark_published-will_run :
    (id i : ℕ) (now : ℤ) (outbox : List OutboxRow) (stream : List ℕ)
    → will_run i outbox stream ≡ true
    → ((id == i) ≡ true → any_by (λ j. j == i) stream ≡ true)
    → will_run i (mark_published id now outbox) stream ≡ true
mark_published-will_run id i now [] stream h k = h
mark_published-will_run id i now (o ∷ outbox) stream h k =
    ground (arith, mark_published-will_run id i now outbox stream, k)

mark_published-All :
    (id : ℕ) (now : ℤ) (p : ℕ → Bool) (outbox : List OutboxRow)
    → All (λ o. p o.run_id ≡ true) outbox
    → All (λ o. p o.run_id ≡ true) (mark_published id now outbox)
mark_published-All id now p [] h = tt
mark_published-All id now p (o ∷ outbox) h =
    (marked (o.run_id == id && is_unpublished o), mark_published-All id now p outbox h.1)
  where
    marked : (b : Bool) → p (if b then record o { published_at = some now } else o).run_id ≡ true
    marked true = h.0
    marked false = h.0

module _ (P : OutboxRow → Type 0) where
  insert_outbox-All :
      (o : OutboxRow) (os : List OutboxRow) → P o → All P os → All P (insert_outbox o os)
  unfolding insert_outbox
  insert_outbox-All o [] p h = (p, tt)
  insert_outbox-All o (x ∷ xs) p h =
      by_time (leb_ℤ o.created_at x.created_at) (insert_outbox-All o xs p h.1)
    where
      by_time :
          (b : Bool)
          → All P (insert_outbox o xs)
          → All P (if b then o ∷ x ∷ xs else x ∷ insert_outbox o xs)
      by_time true later = (p, h)
      by_time false later = (h.0, later)

  oldest_first-All : (os : List OutboxRow) → All P os → All P (oldest_first os)
  unfolding oldest_first
  oldest_first-All [] h = tt
  oldest_first-All (o ∷ os) h = insert_outbox-All o _ h.0 (oldest_first-All os h.1)

run_ids-All :
    (p : ℕ → Bool) (os : List OutboxRow)
    → All (λ o. p o.run_id ≡ true) os
    → All (λ id. p id ≡ true) (map (λ o. o.run_id) os)
run_ids-All p [] h = tt
run_ids-All p (o ∷ os) h = (h.0, run_ids-All p os h.1)

module _ {D : Type 0} where
  -- Whether it is stored or taken for a duplicate, a publication leaves a queued run's message in the
  -- stream.
  publish-NoneLost :
      (id : ℕ) (s : JobState D)
      → NoneLost s
      → has_run s.tables.runs id ≡ true
      → NoneLost (publish id s)
        × ((r : Run D)
            → run_by_id id s.tables.runs ≡ some r
            → is_queued r.status ≡ true
            → any_by (λ j. j == id) (publish id s).stream ≡ true)
  publish-NoneLost id s v known = by_memory (any_by (λ j. j == id) s.remembered) refl
    where
      stored : JobState D
      stored = record s { stream = id ∷ s.stream; remembered = id ∷ s.remembered }

      by_memory :
          (b : Bool)
          → any_by (λ j. j == id) s.remembered ≡ b
          → NoneLost (if b then s else stored)
            × ((r : Run D)
                → run_by_id id s.tables.runs ≡ some r
                → is_queued r.status ≡ true
                → any_by (λ j. j == id) (if b then s else stored).stream ≡ true)
      by_memory true m = (v, λ r e q. v.in_stream id r e q m)
      by_memory false m = (
        record {
          pending = λ i r e q. ground (arith, v.pending i r e q);
          in_stream = λ i r e q h. ground (arith, v.in_stream i r e q, h);
          known_rows = v.known_rows;
          known_ids = (known, v.known_ids);
        },
        λ r e q. ground arith,
      )

  publish-tables : (id : ℕ) (s : JobState D) → (publish id s).tables ≡ s.tables
  publish-tables id s = by_memory (any_by (λ j. j == id) s.remembered)
    where
      by_memory :
          (b : Bool)
          → (if b
              then s
              else record s { stream = id ∷ s.stream; remembered = id ∷ s.remembered }).tables
            ≡ s.tables
      by_memory true = refl
      by_memory false = refl

  note_published-NoneLost :
      (id : ℕ) (now : ℤ) (s : JobState D)
      → NoneLost s
      → ((r : Run D)
          → run_by_id id s.tables.runs ≡ some r
          → is_queued r.status ≡ true
          → any_by (λ j. j == id) s.stream ≡ true)
      → NoneLost (note_published id now s)
  note_published-NoneLost id now s v k = record {
    pending = λ i r e q.
        mark_published-will_run id i now s.tables.outbox s.stream (v.pending i r e q)
          (λ h. same_id i r h e q);
    in_stream = v.in_stream;
    known_rows = mark_published-All id now (has_run s.tables.runs) s.tables.outbox v.known_rows;
    known_ids = v.known_ids;
  }
    where
      same_id :
          (i : ℕ) (r : Run D)
          → (id == i) ≡ true
          → run_by_id i s.tables.runs ≡ some r
          → is_queued r.status ≡ true
          → any_by (λ j. j == i) s.stream ≡ true
      same_id i r h e q = let same : i ≡ id = ground arith in rw same (k r (rw same at e) q)

  publish_all-NoneLost :
      (delivery : ℕ → Delivery) (now : ℤ) (ids : List ℕ) (s : JobState D)
      → NoneLost s
      → All (λ id. has_run s.tables.runs id ≡ true) ids
      → NoneLost (publish_all delivery now ids s)
  unfolding publish_all
  publish_all-NoneLost delivery now [] s v known = v
  publish_all-NoneLost delivery now (id ∷ ids) s v known =
      let (published, there) = publish-NoneLost id s v known.0 in
      let same = publish-tables id s in
      by_delivery (delivery id) published (
        publish_all-NoneLost delivery now ids (note_published id now (publish id s))
          (note_published-NoneLost id now (publish id s) published
            (λ r e q. there r (ap (λ t. run_by_id id t.runs) (sym same) ∙ e) q))
          (All-map _ _ ids (λ i k. ap (λ t. has_run t.runs i) same ∙ k) known.1))
    where
      by_delivery :
          (y : Delivery)
          → NoneLost (publish id s)
          → NoneLost (publish_all delivery now ids (note_published id now (publish id s)))
          → NoneLost (elim y as (λ _. JobState D) [
            | delivered ↦ publish_all delivery now ids (note_published id now (publish id s))
            | unnoted ↦ publish id s
            | undelivered ↦ s
          ])
      by_delivery Delivery.delivered p w = w
      by_delivery Delivery.unnoted p w = p
      by_delivery Delivery.undelivered p w = v

  pub dispatch-NoneLost :
      (delivery : ℕ → Delivery) (now : ℤ) (s : JobState D)
      → NoneLost s
      → NoneLost (dispatch delivery now s)
  unfolding dispatch
  dispatch-NoneLost delivery now s v = publish_all-NoneLost delivery now _ s v (
      run_ids-All (has_run s.tables.runs) _ (
        All-take _ 20 _
          (oldest_first-All _ _ (All-keep _ is_unpublished s.tables.outbox v.known_rows))))

  -- The stream remembers no message of a new run.
  not_remembered :
      (id : ℕ) (runs : List (Run D)) (ids : List ℕ)
      → has_run runs id ≡ false
      → All (λ j. has_run runs j ≡ true) ids
      → any_by (λ j. j == id) ids ≡ false
  not_remembered id runs [] fresh k = refl
  not_remembered id runs (j ∷ js) fresh k =
      let rest = not_remembered id runs js fresh k.1 in other (j == id) refl rest
    where
      other :
          (b : Bool)
          → (j == id) ≡ b
          → any_by (λ i. i == id) js ≡ false
          → any_by (λ i. i == id) (j ∷ js) ≡ false
      other false e rest = ground arith
      other true e rest =
          let same : j ≡ id = ground arith in
          let known : has_run runs id ≡ true = rw same at (k.0) in cc

  pub enqueue-NoneLost :
      (id : ℕ) (key hash : String) (now : ℤ) (e : Experiment) (s : JobState D) (t : JobTables D)
      (i : ℕ)
      → NoneLost s
      → enqueue_tx id key hash now e s.tables ≡ ok (t, i)
      → NoneLost (record s { tables = t })
  unfolding enqueue_tx
  enqueue-NoneLost id key hash now e s t i v h =
      elim (Option-cases (run_by_key key s.tables.runs)) [
        | inr (r, old) ↦
            let same : t ≡ s.tables = ground (arith, rw (old, enqueue_tx) at h) in
            record {
              pending = rw same v.pending;
              in_stream = rw same v.in_stream;
              known_rows = rw same v.known_rows;
              known_ids = rw same v.known_ids;
            }
        | inl new ↦
            let fresh : has_run s.tables.runs id ≡ false =
              ground (arith, rw (new, enqueue_tx) at h) in
            let same : t ≡ record {
              runs = queued_run id key hash now e ∷ s.tables.runs;
              outbox =
                  record { run_id = id; created_at = now; published_at = none } ∷ s.tables.outbox;
            } =
              ground (arith, rw (new, enqueue_tx) at h) in
            let forgotten = not_remembered id s.tables.runs s.remembered fresh v.known_ids in
            record {
              pending = rw same (λ j r e q. ground (arith, v.pending j r));
              in_stream = rw same (λ j r e q m. ground (arith, v.in_stream j r, forgotten, m));
              known_rows = rw same (
                ground arith,
                All-map _ _ s.tables.outbox (λ o k. ground (arith, k)) v.known_rows,
              );
              known_ids = rw same (All-map _ _ s.remembered (λ j k. ground (arith, k)) v.known_ids);
            }
      ]
