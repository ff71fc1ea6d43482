-- ===== src/Broker/Sorted.antt =====
-- What sorting by time, selecting and cutting lists of rows keeps (the queries of
-- internal/platform/broker.go).
use mathlib.Core.List.{Perm}
use mathlib.Core.List.Perm
use mfd.Prelude.{
  ◌++◌, length, ◌⊎◌, inl, inr, ◌≤◌, ap, arith, ℕ, Bool, true, false, List, [], ◌∷◌, ◌≡◌, refl, take,
  keep, if◌then◌else◌, All, suc, zero,
}
use mfd.Prelude.Int.{leb_ℤ}
use mfd.Demo.Records.{Time}
use mfd.Broker.Status.{insert_latest, latest_first}

module _ {A : Type 0} (P : A → Type 0) where
  All-if : (b : Bool) (xs ys : List A) → All P xs → All P ys → All P (if b then xs else ys)
  All-if true xs ys h k = h
  All-if false xs ys h k = k

  pub All-keep : (p : A → Bool) (xs : List A) → All P xs → All P (keep p xs)
  All-keep p [] h = tt
  All-keep p (x ∷ xs) h = let rest = All-keep p xs h.1 in All-if (p x) _ _ (h.0, rest) rest

  pub All-take : (n : ℕ) (xs : List A) → All P xs → All P (take n xs)
  All-take zero xs h = tt
  All-take (suc n) [] h = tt
  All-take (suc n) (x ∷ xs) h = (h.0, All-take n xs h.1)

  All-insert_latest :
      (at : A → Time) (a : A) (bs : List A) → P a → All P bs → All P (insert_latest at a bs)
  unfolding insert_latest
  All-insert_latest at a [] p h = (p, tt)
  All-insert_latest at a (b ∷ bs) p h =
      let later = All-insert_latest at a bs p h.1 in
      All-if (leb_ℤ (at b) (at a)) _ _ (p, h) (h.0, later)

  pub All-latest_first : (at : A → Time) (xs : List A) → All P xs → All P (latest_first at xs)
  unfolding latest_first
  All-latest_first at [] h = tt
  All-latest_first at (x ∷ xs) h = All-insert_latest at x _ h.0 (All-latest_first at xs h.1)

-- A row as new as every other comes first.
pub insert_latest-front :
    {A : Type 0} (at : A → Time) (a : A) (bs : List A)
    → All (λ b. leb_ℤ (at b) (at a) ≡ true) bs
    → insert_latest at a bs ≡ a ∷ bs
unfolding insert_latest
insert_latest-front at a [] h = refl
insert_latest-front at a (b ∷ bs) h = rw h.0 refl

-- The latest come first.
abbrev pub Descending : {A : Type 0} → (A → Time) → List A → Type 0
Descending at [] = Unit
Descending at (a ∷ as') = All (λ b. leb_ℤ (at b) (at a) ≡ true) as' × Descending at as'

not_leb : (x y : Time) → leb_ℤ x y ≡ false → leb_ℤ y x ≡ true
not_leb x y h = ground (arith, h)

module _ {A : Type 0} (at : A → Time) where
  insert_latest-perm : (a : A) (bs : List A) → Perm (insert_latest at a bs) (a ∷ bs)
  unfolding insert_latest
  insert_latest-perm a [] = Perm.refl _
  insert_latest-perm a (b ∷ bs) = by_time (leb_ℤ (at b) (at a)) (insert_latest-perm a bs)
    where
      by_time :
          (x : Bool)
          → Perm (insert_latest at a bs) (a ∷ bs)
          → Perm (if x then a ∷ b ∷ bs else b ∷ insert_latest at a bs) (a ∷ b ∷ bs)
      by_time true p = Perm.refl _
      by_time false p = Perm.trans (Perm.cons b p) (Perm.swap a b bs)

  pub latest_first-perm : (xs : List A) → Perm (latest_first at xs) xs
  unfolding latest_first
  latest_first-perm [] = Perm.refl []
  latest_first-perm (x ∷ xs) =
      Perm.trans (insert_latest-perm x (latest_first at xs)) (Perm.cons x (latest_first-perm xs))

  below_trans :
      (a b : A) (bs : List A)
      → leb_ℤ (at b) (at a) ≡ true
      → All (λ c. leb_ℤ (at c) (at b) ≡ true) bs
      → All (λ c. leb_ℤ (at c) (at a) ≡ true) bs
  below_trans a b [] h k = tt
  below_trans a b (c ∷ bs) h k = (ground (arith, h, k.0), below_trans a b bs h k.1)

  insert_latest-Descending :
      (a : A) (bs : List A) → Descending at bs → Descending at (insert_latest at a bs)
  unfolding insert_latest
  insert_latest-Descending a [] h = (tt, tt)
  insert_latest-Descending a (b ∷ bs) h =
      by_time (leb_ℤ (at b) (at a)) refl (insert_latest-Descending a bs h.1)
    where
      by_time :
          (x : Bool)
          → leb_ℤ (at b) (at a) ≡ x
          → Descending at (insert_latest at a bs)
          → Descending at (if x then a ∷ b ∷ bs else b ∷ insert_latest at a bs)
      by_time true e later = ((e, below_trans a b bs e h.0), h)
      by_time false e later = (
        All-insert_latest (λ c. leb_ℤ (at c) (at b) ≡ true) at a bs (not_leb (at b) (at a) e) h.0,
        later,
      )

  pub latest_first-Descending : (xs : List A) → Descending at (latest_first at xs)
  unfolding latest_first
  latest_first-Descending [] = tt
  latest_first-Descending (x ∷ xs) = insert_latest-Descending x _ (latest_first-Descending xs)

-- The first `n`, or all where there are fewer.
pub take-split :
    {A : Type 0} (n : ℕ) (xs : List A)
    → (rest : List A) × (take n xs ++ rest ≡ xs)
      × ((length (take n xs) ≡ n) ⊎ ((rest ≡ []) × (length (take n xs) ≤ n)))
take-split zero xs = (xs, refl, inl refl)
take-split (suc n) [] = ([], refl, inr (refl, omega arith))
take-split (suc n) (x ∷ xs) =
    let (rest, same, size) = take-split n xs in (rest, ap (λ ys. x ∷ ys) same, ground (arith, size))
