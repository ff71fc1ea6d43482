-- ===== src/Lab/Value.antt =====
-- Value (internal/lab/lab.go): the valuation of a sleeve of unlevered long USD positions.
use mfd.Lab.Records.{SleeveSnapshot, Quote, Sleeve, Position}
use mfd.Decimal.{Decimals}
use mfd.Prelude.Int.{saturate, leb_ℤ, ◌-ℤ◌, pos, ltb_ℤ, ℤ}
use text.Mathlib.Text.{◌==◌ as str_eq}
use mfd.Prelude.{
  not, ◌||◌, fail_if, ◌>>◌, ◌>>=◌, none, some, [], any_by, ◌∷◌, err, ok, ◌++◌, Result, find_by,
  Bool, Option, String, List,
}

pub data ValueError : Type 0 where
  invalid_policy : ValueError
  duplicate_quote missing_mark unsupported_currency invalid_position invalid_quote stale_mark :
      String → ValueError

-- The running sums of the loop over the positions.
pub record Totals (D : Type 0) : Type 0 where
  pub market_value : D
  pub liquidation : D
  pub cost : D
  pub quotes : List (Quote D)

module _ {D : Type 0} where
  -- The map `bySymbol`, as the list of its values: each stands under its own symbol.
  abbrev pub quote_for : String → List (Quote D) → Option (Quote D)
  quote_for symbol = find_by (λ q. str_eq q.symbol symbol)

  abbrev pub has_quote : String → List (Quote D) → Bool
  has_quote symbol = any_by (λ q. str_eq q.symbol symbol)

  -- The loop that fills it.
  unfoldable pub by_symbol : List (Quote D) → List (Quote D) → Result ValueError (List (Quote D))
  by_symbol seen [] = ok seen
  by_symbol seen (q ∷ qs) = do
    fail_if (has_quote q.symbol seen) (duplicate_quote q.symbol)
    by_symbol (seen ++ q ∷ []) qs

  abbrev pub marked : String → Option (Quote D) → Result ValueError (Quote D)
  marked symbol none = err (missing_mark symbol)
  marked symbol (some q) = ok q

module _ (d : Decimals) where
  abbrev pub mid : Quote d.D → d.D
  mid q = d.div (d.add q.bid q.ask) (d.from_int (pos 2))

  -- The four guards on a position and its mark.
  unfoldable pub check_mark : ℤ → ℤ → Position d.D → Quote d.D → Result ValueError (Unit {0})
  check_mark at max_age p q = do
    fail_if (not (str_eq p.currency "USD") || not (str_eq q.currency "USD"))
        (unsupported_currency p.symbol)
    fail_if (not (d.is_positive p.units) || d.is_negative p.cost) (invalid_position p.symbol)
    fail_if (not (d.is_positive q.bid) || d.less_than q.ask q.bid) (invalid_quote p.symbol)
    let age = saturate (at -ℤ q.at)
    fail_if (ltb_ℤ age (pos 0) || ltb_ℤ max_age age) (stale_mark p.symbol)

  abbrev pub add_mark : Position d.D → Quote d.D → Totals d.D → Totals d.D
  add_mark p q t = record {
    market_value = d.add t.market_value (d.mul p.units (mid q));
    liquidation = d.add t.liquidation (d.mul p.units q.bid);
    cost = d.add t.cost p.cost;
    quotes = t.quotes ++ q ∷ [];
  }

  unfoldable pub value_positions :
      ℤ → ℤ → List (Quote d.D) → List (Position d.D) → Totals d.D → Result ValueError (Totals d.D)
  value_positions at max_age book [] t = ok t
  value_positions at max_age book (p ∷ ps) t = do
    q ← marked p.symbol (quote_for p.symbol book)
    check_mark at max_age p q
    value_positions at max_age book ps (add_mark p q t)

  abbrev pub no_totals : Totals d.D
  no_totals = record { market_value = d.zero; liquidation = d.zero; cost = d.zero; quotes = [] }

  unfoldable pub value :
      Sleeve d.D → List (Quote d.D) → ℤ → ℤ → Result ValueError (SleeveSnapshot d.D)
  value s quotes at max_age = do
    fail_if (d.is_negative s.cash || leb_ℤ max_age (pos 0)) invalid_policy
    book ← by_symbol [] quotes
    t ← value_positions at max_age book s.positions no_totals
    ok (record {
      sleeve = s.id;
      at = at;
      currency = "USD";
      cash = s.cash;
      market_value = t.market_value;
      equity = d.add s.cash t.market_value;
      liquidation_equity = d.add s.cash t.liquidation;
      unrealized_pnl = d.sub t.market_value t.cost;
      positions = s.positions;
      quotes = t.quotes;
    })
