-- ===== src/Broker/Bindings.antt =====
-- To which environment a client may be bound (internal/platform/broker.go).
use mfd.Prelude.{
  Bool-cases, inr, inl, ◌⊎◌, sym, ℕ, String, true, false, Option, none, some, ◌≡◌, arith, ◌==◌,
}
use mfd.Demo.Records.{Bytes}
use mfd.Demo.Provider.{Snapshot}
use mfd.Broker.Sync.{is_conflicted, is_taken}
use mfd.Broker.Turns.{bound_to, noted, clashed, attempted, idle, Turn, MayBind, is_client}
use mfd.Broker.Records.{Environment, Slots, slot, put, has_client, BrokerService}

-- No client is bound to two environments, and a bound client is one of the service's, not in conflict.
pub record Consistent {C : Type 0} (s : BrokerService C) : Type 0 where
  pub apart : (c : ℕ) → has_client c s.bound.in_demo ≡ true → has_client c s.bound.in_real ≡ false
  pub known : (c : ℕ) → is_client c s.bound ≡ true → is_client c s.clients ≡ true
  pub clear : (c : ℕ) → is_client c s.bound ≡ true → is_conflicted c s ≡ false

-- Each environment that `s` binds is bound to the same client in `t`.
abbrev pub Extends : Slots → Slots → Type 0
Extends s t =
    (e : Environment) (c : ℕ) → has_client c (slot e s) ≡ true → has_client c (slot e t) ≡ true

has_client-same : (c k : ℕ) (o : Option ℕ) → has_client c o ≡ true → has_client k o ≡ true → c ≡ k
has_client-same c k none h g = cc
has_client-same c k (some n) h g = ground arith

not_taken :
    (client c : ℕ) (o : Option ℕ)
    → is_taken client o ≡ false
    → has_client c o ≡ true
    → (client == c) ≡ true
not_taken client c none free h = cc
not_taken client c (some n) free h = ground arith

put-Extends :
    (client : ℕ) (environment : Environment) (m : Slots)
    → is_taken client (slot environment m) ≡ false
    → Extends m (put environment client m)
put-Extends client Environment.demo m free Environment.demo c h =
    not_taken client c m.in_demo free h
put-Extends client Environment.demo m free Environment.real c h = h
put-Extends client Environment.real m free Environment.demo c h = h
put-Extends client Environment.real m free Environment.real c h =
    not_taken client c m.in_real free h

unbound :
    (client c : ℕ) (m : Slots)
    → is_client client m ≡ false
    → is_client c m ≡ true
    → (client == c) ≡ false
unbound client c m h b = elim (Bool-cases (client == c)) [
  | inr differ ↦ differ
  | inl same ↦ let e : client ≡ c = ground arith in ground (arith, rw e at h)
]

is_client-put :
    (client : ℕ) (environment : Environment) (m : Slots) (c : ℕ)
    → is_client c (put environment client m) ≡ true
    → (client ≡ c) ⊎ (is_client c m ≡ true)
is_client-put client Environment.demo m c h = ground arith
is_client-put client Environment.real m c h = ground arith

module _ {C : Type 0} where
  put-apart :
      (client : ℕ) (environment : Environment) (s : BrokerService C)
      → MayBind client environment s
      → Consistent s
      → (c : ℕ) → has_client c (put environment client s.bound).in_demo ≡ true
      → has_client c (put environment client s.bound).in_real ≡ false
  put-apart client Environment.demo s m v c h =
      let same : client ≡ c = ground arith in rw (sym same) m.is_apart
  put-apart client Environment.real s m v c h = ground (arith, m.is_apart)

  put-known :
      (client : ℕ) (environment : Environment) (s : BrokerService C)
      → MayBind client environment s
      → Consistent s
      → (c : ℕ) → is_client c (put environment client s.bound) ≡ true
      → (is_client c s.clients ≡ true) × (is_conflicted c s ≡ false)
  put-known client environment s m v c h = elim (is_client-put client environment s.bound c h) [
    | inl same ↦ (rw (← same) m.is_known, rw (← same) m.is_clear)
    | inr old ↦ (v.known c old, v.clear c old)
  ]

module _ {D C : Type 0} {encrypt : Bytes → Option C} {digest : Bytes → String}
    {parse : Bytes → Option (Snapshot D)} where
  pub Turn-Consistent :
      (s t : BrokerService C) → Turn encrypt digest parse s t → Consistent s → Consistent t
  Turn-Consistent s t (idle f e) v =
      rw e (record { apart = v.apart; known = v.known; clear = v.clear })
  Turn-Consistent s t (attempted client since lag h e) v =
      rw e (record { apart = v.apart; known = v.known; clear = v.clear })
  Turn-Consistent s t (clashed client h e) v = rw e (record {
    apart = v.apart;
    known = v.known;
    clear = λ c b. ground (arith, unbound client c s.bound h b, v.clear c b);
  })
  Turn-Consistent s t (noted stamp environment reading u f g h e) v =
      rw e (record { apart = v.apart; known = v.known; clear = v.clear })
  Turn-Consistent s t (bound_to client environment stamp raw snapshot u f g h free m e) v =
      rw e (record {
        apart = put-apart client environment s m v;
        known = λ c b. (put-known client environment s m v c b).0;
        clear = λ c b. (put-known client environment s m v c b).1;
      })

  pub Turn-Extends :
      (b : Slots) (s t : BrokerService C)
      → Turn encrypt digest parse s t
      → Extends b s.bound
      → Extends b t.bound
  Turn-Extends b s t (idle f e) v = rw e v
  Turn-Extends b s t (attempted client since lag h e) v = rw e v
  Turn-Extends b s t (clashed client h e) v = rw e v
  Turn-Extends b s t (noted stamp environment reading u f g h e) v = rw e v
  Turn-Extends b s t (bound_to client environment stamp raw snapshot u f g h free m e) v =
      rw e (λ i c q. put-Extends client environment s.bound free i c (v i c q))
