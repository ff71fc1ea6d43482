-- ===== src/Demo/Lifecycle/Edges.antt =====
-- The transitions of a decision's status that the statements of demo_strategy.go allow.
use mfd.Prelude.{
  ℕ, ◌≡◌, refl, ◌⊎◌, inl, inr, Bool, true, false, Option, none, some, List, [], ◌∷◌, ◌==◌,
  if◌then◌else◌, arith,
}
use mfd.Demo.Records.{RunStatus, hold, ready, submitting, is_active, DemoStrategyRun}
use mfd.Demo.Tables.{set_where}

-- What the broker or its adapter can make of a submission.
abbrev pub is_outcome : RunStatus → Bool
is_outcome RunStatus.hold = false
is_outcome RunStatus.ready = false
is_outcome RunStatus.submitting = false
is_outcome _ = true

pub data Edge : RunStatus → RunStatus → Type 0 where
  withdrawn : Edge ready hold
  launched : Edge ready submitting
  settled : {a b : RunStatus} → is_active a ≡ true → is_outcome b ≡ true → Edge a b

-- How a row begins.
abbrev pub is_new : RunStatus → Bool
is_new RunStatus.hold = true
is_new RunStatus.ready = true
is_new _ = false

-- A status before and after: a row begins held or ready, then it stays, and its status stays or
-- follows an edge.
abbrev pub Via : Option RunStatus → Option RunStatus → Type 0
Via none none = Unit
Via none (some b) = is_new b ≡ true
Via (some a) none = ⊥
Via (some a) (some b) = (a ≡ b) ⊎ Edge a b

pub Via-refl : (a : Option RunStatus) → Via a a
Via-refl none = tt
Via-refl (some a) = inl refl

-- The order of a decision has been, or is about to be, posted.
abbrev pub is_submitted : Option RunStatus → Bool
is_submitted none = false
is_submitted (some RunStatus.hold) = false
is_submitted (some RunStatus.ready) = false
is_submitted (some _) = true

-- Nothing happens to it any more.
abbrev pub is_final : RunStatus → Bool
is_final RunStatus.hold = true
is_final RunStatus.filled = true
is_final RunStatus.rejected = true
is_final _ = false

Edge-is_submitted :
    {a b : RunStatus} → Edge a b → is_submitted (some a) ≡ true → is_submitted (some b) ≡ true
Edge-is_submitted withdrawn h = cc
Edge-is_submitted launched h = refl
Edge-is_submitted (settled {b = b} p q) h = outcome b q
  where
    outcome : (b : RunStatus) → is_outcome b ≡ true → is_submitted (some b) ≡ true
    outcome b q = ground arith

pub Via-is_submitted :
    (a b : Option RunStatus) → Via a b → is_submitted a ≡ true → is_submitted b ≡ true
Via-is_submitted none b v h = cc
Via-is_submitted (some a) none v h = absurd v
Via-is_submitted (some a) (some b) (inl e) h = ground arith
Via-is_submitted (some a) (some b) (inr e) h = Edge-is_submitted e h

Edge-is_final : {a b : RunStatus} → Edge a b → is_final a ≡ true → ⊥
Edge-is_final withdrawn h = cc
Edge-is_final launched h = cc
Edge-is_final (settled {a = a} p q) h = clash a p h
  where
    clash : (a : RunStatus) → is_active a ≡ true → is_final a ≡ true → ⊥
    clash a p h = ground arith

pub Via-is_final :
    {a : RunStatus} (b : Option RunStatus) → Via (some a) b → is_final a ≡ true → b ≡ some a
Via-is_final none v h = absurd v
Via-is_final (some b) (inl e) h = ground arith
Via-is_final (some b) (inr e) h = absurd (Edge-is_final e h)

module _ {D : Type 0} where
  -- The status of the row with an id.
  abbrev pub status_at : ℕ → List (DemoStrategyRun D) → Option RunStatus
  status_at i [] = none
  status_at i (r ∷ rs) = if r.id == i then some r.status else status_at i rs

  -- What an UPDATE's test and SET clause are to each other.
  pub record Follows (test : DemoStrategyRun D → Bool) (set : DemoStrategyRun D → DemoStrategyRun D)
      : Type 0 where
    pub same_id : (r : DemoStrategyRun D) → (set r).id ≡ r.id
    pub edge : (r : DemoStrategyRun D) → test r ≡ true → Edge r.status (set r).status

  pub set_where-Via :
      (i j : ℕ) (test : DemoStrategyRun D → Bool) (set : DemoStrategyRun D → DemoStrategyRun D)
      (rs : List (DemoStrategyRun D))
      → Follows test set
      → Via (status_at j rs) (status_at j (set_where i test set rs))
  set_where-Via i j test set [] f = tt
  set_where-Via i j test set (r ∷ rs) f =
      ground
        (arith, f.same_id r, f.edge r, Via-refl (status_at j rs), set_where-Via i j test set rs f)
