-- ===== src/Lab/Valuation.antt =====
-- What Value (internal/lab/lab.go) promises: a whole valuation from fresh, valid marks, or none.
use mfd.Decimal.Order.{add-step}
use mathlib.Core.List.{append-nil, append_assoc}
use text.Mathlib.Text.{◌==◌ as str_eq}
use mfd.Lab.Records.{Quote, Position}
use mfd.Lab.Value.{
  add_mark, stale_mark, invalid_quote, mid, invalid_position, value_positions, unsupported_currency,
  Totals, marked, quote_for, check_mark,
}
use mfd.Prelude.Int.{saturate, ltb_ℤ, ◌-ℤ◌, ◌≤ℤ◌, pos, ℤ}
use mfd.Decimal.{HasLaws, Decimals}
use mfd.Prelude.{
  refl, ◌∙◌, none, Option, >>=-eq-ok, String, fail_if-false, arith, eq_iff, sym, ok_unique, ◌++◌,
  ◌||◌, false, not, true, fail_if-eq-ok, some, ◌≢◌, ok, All, ◌≡◌, ◌∷◌, [], List,
}

-- The mark of a position: its quote, and the four guards of the loop.
pub record IsMark (d : Decimals) (at max_age : ℤ) (book : List (Quote d.D)) (p : Position d.D)
    (q : Quote d.D) : Type 0 where
  pub found : quote_for p.symbol book ≡ some q
  pub in_dollars : (p.currency ≡ "USD") × (q.currency ≡ "USD")
  pub long : (d.is_positive p.units ≡ true) × (d.is_negative p.cost ≡ false)
  pub uncrossed : (d.is_positive q.bid ≡ true) × (d.less_than q.ask q.bid ≡ false)
  pub fresh : (pos 0 ≤ℤ saturate (at -ℤ q.at)) × (saturate (at -ℤ q.at) ≤ℤ max_age)

pub data Marks (d : Decimals) (at max_age : ℤ) (book : List (Quote d.D))
    : List (Position d.D) → List (Quote d.D) → Type 0 where
  all_marked : Marks d at max_age book [] []
  next_marked :
      {p : Position d.D} {q : Quote d.D} {ps : List (Position d.D)} {qs : List (Quote d.D)}
      → IsMark d at max_age book p q
      → Marks d at max_age book ps qs
      → Marks d at max_age book (p ∷ ps) (q ∷ qs)

marked-found :
    {D : Type 0} {q : Quote D} (symbol : String) (o : Option (Quote D))
    → marked symbol o ≡ ok q
    → o ≡ some q
marked-found symbol none h = cc
marked-found symbol (some r) h = cc

-- No two quotes under one symbol.
abbrev pub Distinct : {D : Type 0} → List (Quote D) → Type 0
Distinct [] = Unit
Distinct (q ∷ qs) = All (λ r. q.symbol ≢ r.symbol) qs × Distinct qs

module _ (d : Decimals) where
  abbrev pub sum_of_costs : List (Position d.D) → d.D
  sum_of_costs [] = d.zero
  sum_of_costs (p ∷ ps) = d.add p.cost (sum_of_costs ps)

  -- Each position at a price of its mark.
  abbrev pub sum_at : (Quote d.D → d.D) → List (Position d.D) → List (Quote d.D) → d.D
  sum_at price [] qs = d.zero
  sum_at price (p ∷ ps) [] = d.zero
  sum_at price (p ∷ ps) (q ∷ qs) = d.add (d.mul p.units (price q)) (sum_at price ps qs)

  check_mark-IsMark :
      (at max_age : ℤ) (book : List (Quote d.D)) (p : Position d.D) (q : Quote d.D)
      → marked p.symbol (quote_for p.symbol book) ≡ ok q
      → check_mark d at max_age p q ≡ ok tt
      → IsMark d at max_age book p q
  unfolding check_mark
  check_mark-IsMark at max_age book p q m h =
      let currency =
        fail_if-eq-ok (not (str_eq p.currency "USD") || not (str_eq q.currency "USD"))
          (unsupported_currency p.symbol) _ h in
      let position =
        fail_if-eq-ok (not (d.is_positive p.units) || d.is_negative p.cost)
          (invalid_position p.symbol) _ currency.1 in
      let quote =
        fail_if-eq-ok (not (d.is_positive q.bid) || d.less_than q.ask q.bid)
          (invalid_quote p.symbol) _ position.1 in
      let age =
        fail_if-false
          (ltb_ℤ (saturate (at -ℤ q.at)) (pos 0) || ltb_ℤ max_age (saturate (at -ℤ q.at)))
          (stale_mark p.symbol) quote.1 in
      record {
        found = marked-found p.symbol (quote_for p.symbol book) m;
        in_dollars = (
          (eq_iff _ _).0 (ground (arith, currency.0)),
          (eq_iff _ _).0 (ground (arith, currency.0)),
        );
        long = (ground (arith, position.0), ground (arith, position.0));
        uncrossed = (ground (arith, quote.0), ground (arith, quote.0));
        fresh = (ground (arith, age), ground (arith, age));
      }

  -- What the loop over the positions adds to its running sums.
  pub record Sums (at max_age : ℤ) (book : List (Quote d.D)) (ps : List (Position d.D))
      (t u : Totals d.D) : Type 0 where
    pub quotes : List (Quote d.D)
    pub marks : Marks d at max_age book ps quotes
    pub quotes-sum : u.quotes ≡ t.quotes ++ quotes
    pub market_value-sum : u.market_value ≡ d.add t.market_value (sum_at (mid d) ps quotes)
    pub liquidation-sum : u.liquidation ≡ d.add t.liquidation (sum_at (λ q. q.bid) ps quotes)
    pub cost-sum : u.cost ≡ d.add t.cost (sum_of_costs ps)

module _ (d : Decimals) (laws : HasLaws d) (at max_age : ℤ) (book : List (Quote d.D)) where
  pub value_positions-Sums :
      (ps : List (Position d.D)) (t u : Totals d.D)
      → value_positions d at max_age book ps t ≡ ok u
      → Sums d at max_age book ps t u
  unfolding value_positions
  value_positions-Sums [] t u h = rw (ok_unique {r = ok u} refl (sym h)) (record {
    quotes = [];
    marks = all_marked;
    quotes-sum = sym (append-nil t.quotes);
    market_value-sum = sym (laws.add-zero t.market_value);
    liquidation-sum = sym (laws.add-zero t.liquidation);
    cost-sum = sym (laws.add-zero t.cost);
  })
  value_positions-Sums (p ∷ ps) t u h =
      let found = >>=-eq-ok (marked p.symbol (quote_for p.symbol book)) _ h in
      let q = found.0 in
      let checked = >>=-eq-ok (check_mark d at max_age p q) _ found.2 in
      let rest = value_positions-Sums ps (add_mark d p q t) u checked.2 in
      record {
        quotes = q ∷ rest.quotes;
        marks = next_marked (check_mark-IsMark d at max_age book p q found.1 checked.1) rest.marks;
        quotes-sum = rest.quotes-sum ∙ append_assoc t.quotes (q ∷ []) rest.quotes;
        market_value-sum = add-step d laws t.market_value _ _ _ rest.market_value-sum;
        liquidation-sum = add-step d laws t.liquidation _ _ _ rest.liquidation-sum;
        cost-sum = add-step d laws t.cost _ _ _ rest.cost-sum;
      }
