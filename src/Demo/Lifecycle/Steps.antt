-- ===== src/Demo/Lifecycle/Steps.antt =====
-- The sessions that any interleaving of the handlers of demo_strategy.go reaches, one atomic action
-- at a time: the commit of a transaction (whose arguments may come from reads long past), the POST
-- of a committed intent, or anything that leaves rows, intents and posts alone.
use mfd.Prelude.{
  ℕ, ◌+◌, ◌≤◌, ◌<◌, ◌≡◌, Bool, true, false, List, [], ◌∷◌, ◌==◌, count_by, arith, any_by,
}
use mfd.Demo.Records.{Time, DemoStrategyRun}
use mfd.Demo.Tables.{count_active, rows_affected}
use mfd.Demo.Session.{Session}
use mfd.Demo.Transactions.{intent_row, may_launch}
use mfd.Demo.Execute.{remove_first}
use mfd.Demo.Lifecycle.Edges.{Via, is_new, is_submitted, status_at, Follows, Via-refl}
use mfd.Demo.Lifecycle.Runs.{Changed}

-- How often an id occurs.
abbrev pub occurs : ℕ → List ℕ → ℕ
occurs i = count_by (λ j. j == i)

-- An insertion under a new id leaves the other statuses alone.
pub status_at-cons :
    {D : Type 0} (r : DemoStrategyRun D) (rs : List (DemoStrategyRun D)) (i : ℕ)
    → is_new r.status ≡ true
    → any_by (λ q. q.id == r.id) rs ≡ false
    → Via (status_at i rs) (status_at i (r ∷ rs))
status_at-cons r [] i n h = ground arith
status_at-cons r (q ∷ rs) i n h = ground (arith, status_at-cons r rs i n, Via-refl (status_at i rs))

module _ {D C B : Type 0} where
  -- The rows, the intents and the posts of `t` as they follow from those of `s`.
  pub data Step (s t : Session D C B) : Type 0 where
    idle : t.tables.runs ≡ s.tables.runs → t.intents ≡ s.intents → t.posts ≡ s.posts → Step s t
    previewed :
        (r : DemoStrategyRun D)
        → is_new r.status ≡ true
        → t.tables.runs ≡ r ∷ s.tables.runs
        → any_by (λ q. q.id == r.id) s.tables.runs ≡ false
        → count_active t.tables.runs ≤ 1
        → t.intents ≡ s.intents
        → t.posts ≡ s.posts
        → Step s t
    updated :
        (id : ℕ) (test : DemoStrategyRun D → Bool) (set : DemoStrategyRun D → DemoStrategyRun D)
        → Follows test set
        → Changed id test set s.tables.runs t.tables.runs
        → t.intents ≡ s.intents
        → t.posts ≡ s.posts
        → Step s t
    intended :
        (id : ℕ) (now : Time)
        → Changed id (may_launch now) (intent_row now id) s.tables.runs t.tables.runs
        → rows_affected id (may_launch {D = D} now) s.tables.runs ≡ 1
        → t.intents ≡ id ∷ s.intents
        → t.posts ≡ s.posts
        → Step s t
    posted :
        (id : ℕ)
        → 0 < occurs id s.intents
        → t.tables.runs ≡ s.tables.runs
        → t.intents ≡ remove_first id s.intents
        → t.posts ≡ id ∷ s.posts
        → Step s t

  pub data Reach (s : Session D C B) : Session D C B → Type 0 where
    here : Reach s s
    next : {t u : Session D C B} → Reach s t → Step t u → Reach s u

  pub Reach-trans : {s t u : Session D C B} → Reach s t → Reach t u → Reach s u
  Reach-trans r here = r
  Reach-trans r (next q st) = next (Reach-trans r q) st

  -- What holds between two actions: one decision at most is in flight, and an order that was posted,
  -- or is about to be, belongs to a decision that is past `ready`, and to no other post.
  pub record IsSafe (s : Session D C B) : Type 0 where
    pub one_active : count_active s.tables.runs ≤ 1
    pub once : (i : ℕ) → occurs i s.intents + occurs i s.posts ≤ 1
    pub past :
        (i : ℕ)
        → 0 < occurs i s.intents + occurs i s.posts
        → is_submitted (status_at i s.tables.runs) ≡ true
