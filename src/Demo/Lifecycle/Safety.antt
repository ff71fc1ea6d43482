-- ===== src/Demo/Lifecycle/Safety.antt =====
-- What every interleaving of the handlers of demo_strategy.go keeps.
use mfd.Prelude.{
  Option, ℕ, ◌+◌, ◌≤◌, ◌<◌, ◌≡◌, refl, inl, inr, Bool, true, some, List, [], ◌∷◌, ◌==◌, ◌&&◌, arith,
  Bool-cases,
}
use mfd.Demo.Records.{Time, RunStatus, ready, submitting, is_ready, DemoStrategyRun}
use mfd.Demo.Tables.{count_active, rows_affected, set_where}
use mfd.Demo.Session.{Session}
use mfd.Demo.Transactions.{expires_after, intent_row, may_launch}
use mfd.Demo.Execute.{remove_first}
use mfd.Demo.Lifecycle.Edges.{
  Edge, launched, Via, is_submitted, is_final, status_at, Follows, set_where-Via, Via-is_submitted,
  Via-is_final, Via-refl,
}
use mfd.Demo.Lifecycle.Steps.{
  Step, idle, previewed, updated, intended, posted, Reach, here, next, IsSafe, occurs,
  status_at-cons,
}

occurs-remove_first :
    (i j : ℕ) (xs : List ℕ)
    → 0 < occurs i xs
    → occurs j (remove_first i xs) + occurs j (i ∷ []) ≡ occurs j xs
occurs-remove_first i j [] h = absurd (omega arith)
occurs-remove_first i j (x ∷ xs) h = ground (arith, occurs-remove_first i j xs)

posted_before :
    (id i : ℕ) (intents posts : List ℕ)
    → 0 < occurs id intents
    → 0 < occurs i (remove_first id intents) + occurs i (id ∷ posts)
    → 0 < occurs i intents + occurs i posts
posted_before id i intents posts h k = ground (arith, occurs-remove_first id i intents h)

launch-Edge : (a : RunStatus) (b : Bool) → (is_ready a && b) ≡ true → Edge a submitting
launch-Edge ready b h = launched
launch-Edge _ b h = cc

module _ {D : Type 0} where
  pub intent-Follows : (now : Time) (id : ℕ) → Follows {D = D} (may_launch now) (intent_row now id)
  intent-Follows now id = record {
    same_id = λ r. refl;
    edge = λ r h. launch-Edge r.status (expires_after now r.expires_at) h;
  }

  -- The row that a submit intent changes was ready, and is submitting.
  intent_from :
      (now : Time) (id : ℕ) (rs : List (DemoStrategyRun D))
      → rows_affected id (may_launch now) rs ≡ 1
      → (status_at id rs ≡ some ready)
        × (status_at id (set_where id (may_launch now) (intent_row now id) rs) ≡ some submitting)
  intent_from now id [] h = absurd (omega arith)
  intent_from now id (r ∷ rs) h = ground (arith, intent_from now id rs)

-- A status before and after any number of changes, each along an edge of the life cycle.
pub data Course (a : Option RunStatus) : Option RunStatus → Type 0 where
  course_here : Course a a
  course_next : {b c : Option RunStatus} → Course a b → Via b c → Course a c

module _ {D C B : Type 0} where
  -- One atomic action moves each decision's status along an edge of the life cycle or leaves it.
  pub Step-Via :
      {s t : Session D C B}
      → Step s t
      → (i : ℕ) → Via (status_at i s.tables.runs) (status_at i t.tables.runs)
  Step-Via {s} {t} (idle e _ _) i = rw e (Via-refl (status_at i s.tables.runs))
  Step-Via {s} {t} (previewed r n e fresh _ _ _) i = rw e (status_at-cons r s.tables.runs i n fresh)
  Step-Via {s} {t} (updated id test set f c _ _) i =
      rw (c.0) (set_where-Via id i test set s.tables.runs f)
  Step-Via {s} {t} (intended id now c _ _ _) i =
      rw (c.0) (set_where-Via id i _ _ s.tables.runs (intent-Follows now id))
  Step-Via {s} {t} (posted id _ e _ _) i = rw e (Via-refl (status_at i s.tables.runs))

  Step-past :
      {s t : Session D C B}
      → Step s t
      → (i : ℕ) → is_submitted (status_at i s.tables.runs) ≡ true
      → is_submitted (status_at i t.tables.runs) ≡ true
  Step-past {s} {t} st i h =
      Via-is_submitted (status_at i s.tables.runs) (status_at i t.tables.runs) (Step-Via st i) h

  -- Where neither an intent nor a post is new, the index is all that matters.
  kept-IsSafe :
      {s t : Session D C B}
      → Step s t
      → count_active t.tables.runs ≤ 1
      → t.intents ≡ s.intents
      → t.posts ≡ s.posts
      → IsSafe s
      → IsSafe t
  kept-IsSafe {s} {t} st c f g v = record {
    one_active = c;
    once = λ i. rw (f, g) (v.once i);
    past = λ i h. Step-past st i (v.past i (rw (f, g) at h));
  }

  intended_once :
      (s t : Session D C B) (id : ℕ) (now : Time)
      → rows_affected id (may_launch now) s.tables.runs ≡ 1
      → t.intents ≡ id ∷ s.intents
      → t.posts ≡ s.posts
      → IsSafe s
      → (i : ℕ) → occurs i t.intents + occurs i t.posts ≤ 1
  intended_once s t id now one f g v i =
      rw (f, g) (ground (arith, v.once i, v.past i, (intent_from now id s.tables.runs one).0))

  intended_past :
      {s t : Session D C B} (id : ℕ) (now : Time)
      → Step s t
      → t.tables.runs ≡ set_where id (may_launch now) (intent_row now id) s.tables.runs
      → rows_affected id (may_launch now) s.tables.runs ≡ 1
      → t.intents ≡ id ∷ s.intents
      → t.posts ≡ s.posts
      → IsSafe s
      → (i : ℕ) → 0 < occurs i t.intents + occurs i t.posts
      → is_submitted (status_at i t.tables.runs) ≡ true
  intended_past {s} {t} id now st e one f g v i h = elim (Bool-cases (id == i)) [
    | inl same ↦ ground (arith, (intent_from now id s.tables.runs one).1)
    | inr other ↦
        let before : 0 < occurs i s.intents + occurs i s.posts = ground arith in
        Step-past st i (v.past i before)
  ]

  Step-IsSafe : {s t : Session D C B} → Step s t → IsSafe s → IsSafe t
  Step-IsSafe {s} {t} (idle e f g) v =
      let st : Step s t = idle e f g in kept-IsSafe st (rw e v.one_active) f g v
  Step-IsSafe {s} {t} (previewed r n e fresh c f g) v =
      let st : Step s t = previewed r n e fresh c f g in kept-IsSafe st c f g v
  Step-IsSafe {s} {t} (updated id test set p c f g) v =
      let st : Step s t = updated id test set p c f g in kept-IsSafe st c.1 f g v
  Step-IsSafe {s} {t} (intended id now c one f g) v =
      let st : Step s t = intended id now c one f g in
      record {
        one_active = c.1;
        once = intended_once s t id now one f g v;
        past = intended_past id now st c.0 one f g v;
      }
  Step-IsSafe {s} {t} (posted id h e f g) v =
      let st : Step s t = posted id h e f g in
      record {
        one_active = rw e v.one_active;
        once = λ i. rw (f, g) (ground (arith, occurs-remove_first id i s.intents h, v.once i));
        past = λ i k.
            Step-past st i (v.past i (posted_before id i s.intents s.posts h (rw (f, g) at k)));
      }

  Reach-IsSafe : {s t : Session D C B} → Reach s t → IsSafe s → IsSafe t
  Reach-IsSafe here v = v
  Reach-IsSafe (next r st) v = Step-IsSafe st (Reach-IsSafe r v)

  -- Any sequence of actions from empty tables posts each decision's order at most once, leaves one
  -- unresolved decision at most, and every posted decision past `ready`.
  pub posts_once :
      {s t : Session D C B}
      → s.tables.runs ≡ []
      → s.intents ≡ []
      → s.posts ≡ []
      → Reach s t
      → ((i : ℕ) → occurs i t.posts ≤ 1)
        × (count_active t.tables.runs ≤ 1)
        × ((i : ℕ) → 0 < occurs i t.posts → is_submitted (status_at i t.tables.runs) ≡ true)
  posts_once {s} {t} e f g r =
      let v = Reach-IsSafe r (empty_safe e f g) in
      (λ i. omega (arith, v.once i), v.one_active, λ i h. v.past i (omega arith))
    where
      empty_safe : s.tables.runs ≡ [] → s.intents ≡ [] → s.posts ≡ [] → IsSafe s
      empty_safe e f g = record {
        one_active = rw e (omega arith);
        once = λ i. rw (f, g) (omega arith);
        past = λ i h. absurd (none_posted i (rw (f, g) at h));
      }
        where
          none_posted : (i : ℕ) → 0 < occurs i [] + occurs i [] → ⊥
          none_posted i h = omega arith

  -- A decision that is held, filled or rejected keeps its status for ever.
  pub final_stays :
      {s t : Session D C B} (i : ℕ) {a : RunStatus}
      → is_final a ≡ true
      → status_at i s.tables.runs ≡ some a
      → Reach s t
      → status_at i t.tables.runs ≡ some a
  final_stays i f e here = e
  final_stays {s} i {a} f e (next {t = t} {u = u} r st) =
      Via-is_final (status_at i u.tables.runs) (rw (final_stays i f e r) at (Step-Via st i)) f

  pub Reach-Course :
      {s t : Session D C B} (i : ℕ)
      → Reach s t
      → Course (status_at i s.tables.runs) (status_at i t.tables.runs)
  Reach-Course i here = course_here
  Reach-Course i (next r st) = course_next (Reach-Course i r) (Step-Via st i)
