-- ===== src/Decimal/Order.antt =====
-- Consequences of the decimals' laws that the proofs share.
use mfd.Prelude.{inr, ◌∙◌, inl, ◌≡◌}
use mfd.Decimal.{◌≡◌, Decimals, HasLaws, Le}

module _ (d : Decimals) (laws : HasLaws d) where
  pub add_mono : (a b x y : d.D) → Le d a b → Le d x y → Le d (d.add a x) (d.add b y)
  add_mono a b x y h k =
      laws.le_trans (d.add a x) (d.add b x) (d.add b y) (laws.le-add a b x h)
        (rw (laws.add_comm b x, laws.add_comm b y) (laws.le-add x y b k))

  -- Half of a sum is no less than its lesser part.
  pub le_half : (a b m : d.D) → Le d a b → d.add m m ≡ d.add a b → Le d a m
  le_half a b m h e = elim (laws.le_total a m) [
    | inl le ↦ le
    | inr ge ↦ laws.le_cancel a m a (
        laws.le_trans (d.add a a) (d.add m m) (d.add m a)
          (rw (e, laws.add_comm a b) (laws.le-add a b a h))
          (rw (laws.add_comm m a) (laws.le-add m a m ge)))
  ]

  -- The next member of a running sum.
  pub add-step : (t x rest u : d.D) → u ≡ d.add (d.add t x) rest → u ≡ d.add t (d.add x rest)
  add-step t x rest u h = h ∙ laws.add_assoc t x rest

  pub zero-add : (a : d.D) → d.add d.zero a ≡ a
  zero-add a = laws.add_comm d.zero a ∙ laws.add-zero a
