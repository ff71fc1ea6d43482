-- ===== src/Lab/Net.antt =====
-- The figures that Value (internal/lab/lab.go) reports: what they sum, and how they compare.
use mfd.Decimal.Order.{zero-add, le_half, add_mono}
use mfd.Prelude.Int.{pos, leb_ℤ, ℤ}
use mfd.Decimal.{Le, HasLaws, Decimals}
use mathlib.Core.List.{append-nil, append_assoc}
use mfd.Lab.Valuation.{value_positions-Sums, sum_of_costs, sum_at, Marks, Distinct}
use mfd.Lab.Records.{Position, SleeveSnapshot, Sleeve, Quote}
use mfd.Lab.Value.{
  no_totals, value_positions, invalid_policy, mid, value, duplicate_quote, has_quote, by_symbol,
}
use mfd.Prelude.{
  ap, >>=-eq-ok, ◌||◌, refl, ◌∙◌, fail_if-eq-ok, All-append, eq_iff, sym, arith, [], ok_unique,
  ◌++◌, ◌∷◌, ◌≢◌, ok, false, ◌≡◌, All, List, String,
}

module _ {D : Type 0} where
  has_quote-false :
      (symbol : String) (seen : List (Quote D))
      → has_quote symbol seen ≡ false
      → All (λ q. q.symbol ≢ symbol) seen
  has_quote-false symbol [] h = tt
  has_quote-false symbol (q ∷ seen) h = (
    λ e. absurd (ground (arith, (eq_iff q.symbol symbol).1 e)),
    has_quote-false symbol seen (ground (arith)),
  )

  Distinct-snoc :
      (seen : List (Quote D)) (q : Quote D)
      → Distinct seen
      → All (λ r. r.symbol ≢ q.symbol) seen
      → Distinct (seen ++ q ∷ [])
  Distinct-snoc [] q h k = (tt, tt)
  Distinct-snoc (r ∷ seen) q h k = (
    All-append (λ x. r.symbol ≢ x.symbol) seen (q ∷ []) h.0 (k.0, tt),
    Distinct-snoc seen q h.1 k.1,
  )

  by_symbol-Distinct :
      (seen qs book : List (Quote D))
      → Distinct seen
      → by_symbol seen qs ≡ ok book
      → Distinct book × (book ≡ seen ++ qs)
  unfolding by_symbol
  by_symbol-Distinct seen [] book apart h =
      rw (ok_unique {r = ok book} refl (sym h)) (apart, sym (append-nil seen))
  by_symbol-Distinct seen (q ∷ qs) book apart h =
      let new = fail_if-eq-ok (has_quote q.symbol seen) (duplicate_quote q.symbol) _ h in
      let rest =
        by_symbol-Distinct (seen ++ q ∷ []) qs book
          (Distinct-snoc seen q apart (has_quote-false q.symbol seen new.0)) new.1 in
      (rest.0, rest.1 ∙ append_assoc seen (q ∷ []) qs)

-- An exact `Div` by two.
abbrev pub IsHalved : (d : Decimals) → Quote d.D → Type 0
IsHalved d q = d.add (mid d q) (mid d q) ≡ d.add q.bid q.ask

-- A valuation of the sleeve `s`: each position has one mark, in order, and the figures are exact
-- sums over them all.
pub record IsValuation (d : Decimals) (s : Sleeve d.D) (quotes : List (Quote d.D)) (at max_age : ℤ)
    (n : SleeveSnapshot d.D) : Type 0 where
  pub solvent : d.is_negative s.cash ≡ false
  pub distinct : Distinct quotes
  pub marks : Marks d at max_age quotes s.positions n.quotes
  pub identity : (n.sleeve ≡ s.id) × (n.at ≡ at) × (n.cash ≡ s.cash) × (n.positions ≡ s.positions)
  pub market_value-sum : n.market_value ≡ sum_at d (mid d) s.positions n.quotes
  pub equity-sum : n.equity ≡ d.add s.cash n.market_value
  pub liquidation-sum :
      n.liquidation_equity ≡ d.add s.cash (sum_at d (λ q. q.bid) s.positions n.quotes)
  pub cost-sum : d.add n.unrealized_pnl (sum_of_costs d s.positions) ≡ n.market_value

module _ (d : Decimals) (laws : HasLaws d) (s : Sleeve d.D) (quotes : List (Quote d.D))
    (at max_age : ℤ) where
  -- A valuation that succeeds covers every position, in order, with a fresh valid mark, and its
  -- figures are the exact sums over all positions.
  pub value-IsValuation :
      (n : SleeveSnapshot d.D)
      → value d s quotes at max_age ≡ ok n
      → IsValuation d s quotes at max_age n
  unfolding value
  value-IsValuation n h =
      let policy =
        fail_if-eq-ok (d.is_negative s.cash || leb_ℤ max_age (pos 0)) invalid_policy _ h in
      let booked = >>=-eq-ok (by_symbol [] quotes) _ policy.1 in
      let apart = by_symbol-Distinct [] quotes booked.0 tt booked.1 in
      let summed =
        >>=-eq-ok (value_positions d at max_age booked.0 s.positions (no_totals d)) _ booked.2 in
      let sums =
        value_positions-Sums d laws at max_age booked.0 s.positions (no_totals d) summed.0
          summed.1 in
      rw (ok_unique {r = ok n} refl (sym summed.2)) (record {
        solvent = ground (arith, policy.0);
        distinct = rw (← apart.1) apart.0;
        marks = rw (← apart.1, sums.quotes-sum) sums.marks;
        identity = (refl, refl, refl, refl);
        market_value-sum = rw sums.quotes-sum (sums.market_value-sum ∙ zero-add d laws _);
        equity-sum = refl;
        liquidation-sum =
            rw sums.quotes-sum (ap (d.add s.cash) (sums.liquidation-sum ∙ zero-add d laws _));
        cost-sum = rw (sums.cost-sum, zero-add d laws) (laws.add-sub _ _);
      })

  sum_at-bid-le :
      (ps : List (Position d.D)) (qs : List (Quote d.D))
      → Marks d at max_age quotes ps qs
      → All (IsHalved d) qs
      → Le d (sum_at d (λ q. q.bid) ps qs) (sum_at d (mid d) ps qs)
  sum_at-bid-le [] [] Marks.all_marked h = laws.le_refl d.zero
  sum_at-bid-le [] (q ∷ qs) ms h = elim ms [ ]
  sum_at-bid-le (p ∷ ps) [] ms h = elim ms [ ]
  sum_at-bid-le (p ∷ ps) (q ∷ qs) (Marks.next_marked m ms) h =
      add_mono d laws _ _ _ _
        (laws.le-mul p.units q.bid (mid d q) m.long.0 (
          le_half d laws q.bid q.ask (mid d q)
            (ground (arith, laws.less_than-not q.ask q.bid, m.uncrossed.1)) h.0))
        (sum_at-bid-le ps qs ms h.1)

  -- Liquidation equity never exceeds equity, where the mids are exact.
  pub value-liquidation_le :
      (n : SleeveSnapshot d.D)
      → value d s quotes at max_age ≡ ok n
      → All (IsHalved d) n.quotes
      → Le d n.liquidation_equity n.equity
  value-liquidation_le n h halved =
      let v = value-IsValuation n h in
      rw (v.liquidation-sum, v.equity-sum, v.market_value-sum)
        (add_mono d laws _ _ _ _ (laws.le_refl s.cash)
          (sum_at-bid-le s.positions n.quotes v.marks halved))
