-- ===== src/Execution/Confirmations/Known.antt =====
-- The accounted fill of an order in src/execution/venue-confirmations.ts.
use mathlib.Core.Path.{subst}
use pok_poly_kalshi.Prelude.{String, ◌≡◌, refl, Option, none, some, arith, ◌⊎◌, inl, inr}
use pok_poly_kalshi.Prelude.Tests.{text_key}
use pok_poly_kalshi.Prelude.JsMap.{JsMap, get, set, get-set}
use pok_poly_kalshi.Prelude.Int.{ℤ, ◌≤ℤ◌}
use pok_poly_kalshi.Execution.Confirmations.{VenueOrderResult}
use pok_poly_kalshi.Execution.Confirmations.Coordinator.{
  KnownOrder, OrderKey, client, order, order_key, key_for, larger, prior_for, set_if, merged_fill,
  remember_known_order, same_key_iff,
}

-- A known fill is at most another, which is known too.
abbrev pub Covers : Option ℤ → Option ℤ → Type 0
Covers none b = Unit
Covers (some a) none = ⊥
Covers (some a) (some b) = a ≤ℤ b

Covers-larger : (a b : Option ℤ) → Covers a (larger a b) × Covers b (larger a b)
Covers-larger none none = (tt, tt)
Covers-larger none (some b) = (tt, omega arith)
Covers-larger (some a) none = (omega arith, tt)
Covers-larger (some a) (some b) = (ground arith, ground arith)

Covers-trans : (a b c : Option ℤ) → Covers a b → Covers b c → Covers a c
Covers-trans none b c p q = tt
Covers-trans (some a) none c p q = absurd p
Covers-trans (some a) (some b) none p q = absurd q
Covers-trans (some a) (some b) (some c) p q = omega arith

get-set_self :
    (m : JsMap OrderKey KnownOrder) (key : OrderKey) (k : KnownOrder)
    → get (set m key k) key ≡ some k
get-set_self m key k = ground (arith, get-set m key k key, same_key_iff key key)

set_if-stores :
    (m : JsMap OrderKey KnownOrder) (o : Option OrderKey) (key : OrderKey) (k : KnownOrder)
    → o ≡ some key
    → get (set_if m o k) key ≡ some k
set_if-stores m none key k e = cc
set_if-stores m (some j) key k e = ground (arith, get-set m j k key, same_key_iff j key)

set_if-keeps :
    (m : JsMap OrderKey KnownOrder) (o : Option OrderKey) (key : OrderKey) (k : KnownOrder)
    → get m key ≡ some k
    → get (set_if m o k) key ≡ some k
set_if-keeps m none key k e = e
set_if-keeps m (some j) key k e = ground (arith, get-set m j k key)

merged :
    (known : JsMap OrderKey KnownOrder) (r : VenueOrderResult) (group : String)
    → larger r.fill_count (
        larger
          (prior_for known group (key_for (client r.venue) r.client_order_id))
          (prior_for known group (key_for (order r.venue) r.order_id)))
      ≡ merged_fill known r group
unfolding merged_fill
merged known r group = refl

prior-own :
    (m : JsMap OrderKey KnownOrder) (key : OrderKey) (k : KnownOrder)
    → get m key ≡ some k
    → prior_for m k.execution_group_id (some key) ≡ k.reconciled_fill_count
unfolding prior_for
prior-own m key k e =
    rw (e, prior_for) (ground (arith, text_key.same_iff k.execution_group_id k.execution_group_id))

-- Under each key of the order the merged fill is what is accounted for.
remember-prior :
    (known : JsMap OrderKey KnownOrder) (r : VenueOrderResult) (group : String) (expected : ℤ)
    (key : OrderKey)
    → (key_for (client r.venue) r.client_order_id ≡ some key)
      ⊎ (key_for (order r.venue) r.order_id ≡ some key)
    → prior_for (remember_known_order known r group expected) group (some key)
      ≡ merged_fill known r group
unfolding remember_known_order
remember-prior known r group expected key h =
    let k : KnownOrder = record {
      execution_group_id = group;
      expected_size = expected;
      venue = r.venue;
      reconciled_fill_count = merged_fill known r group;
    } in
    let m = set_if known (key_for (client r.venue) r.client_order_id) k in
    let o = key_for (order r.venue) r.order_id in
    elim h [
      | inl c ↦
          prior-own (set_if m o k) key k (set_if-keeps m o key k (set_if-stores known _ key k c))
      | inr e ↦ prior-own (set_if m o k) key k (set_if-stores m o key k e)
    ]

-- Remembering an order again never lowers the fill that its keys account for within its execution
-- group, and the fill of the new result is accounted for under each key that it has.
pub remember_monotone :
    (known : JsMap OrderKey KnownOrder) (r : VenueOrderResult) (group : String) (expected : ℤ)
    (key : OrderKey)
    → (key_for (client r.venue) r.client_order_id ≡ some key)
      ⊎ (key_for (order r.venue) r.order_id ≡ some key)
    → let after = remember_known_order known r group expected in
      Covers (prior_for known group (some key)) (prior_for after group (some key))
      × Covers r.fill_count (prior_for after group (some key))
remember_monotone known r group expected key h =
    let stored = remember-prior known r group expected key h in
    let clients = prior_for known group (key_for (client r.venue) r.client_order_id) in
    let orders = prior_for known group (key_for (order r.venue) r.order_id) in
    let (own, rest) = Covers-larger r.fill_count (larger clients orders) in
    let (left, right) = Covers-larger clients orders in
    rw stored (
      elim h [
        | inl c ↦
            subst (λ k. Covers (prior_for known group k) (merged_fill known r group)) c
              (subst (Covers clients) (merged known r group)
                (Covers-trans clients (larger clients orders) _ left rest))
        | inr o ↦
            subst (λ k. Covers (prior_for known group k) (merged_fill known r group)) o
              (subst (Covers orders) (merged known r group)
                (Covers-trans orders (larger clients orders) _ right rest))
      ],
      subst (Covers r.fill_count) (merged known r group) own,
    )
