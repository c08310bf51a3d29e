-- ===== src/Books/Levels/Best.antt =====
-- The best price and the sorted levels of src/polymarket/client.ts agree.
use pok_poly_kalshi.Prelude.{
  Bool, true, false, ◌≡◌, refl, sym, ap, ◌∙◌, Option, none, some, List, [], ◌∷◌, inl, inr, arith,
}
use pok_poly_kalshi.Prelude.Tests.{Bool-cases}
use pok_poly_kalshi.Prelude.JsMap.{JsMap}
use pok_poly_kalshi.Prelude.Int.{ℤ, pos, ltb_ℤ, leb_ℤ, eq_of_parts}
use pok_poly_kalshi.Prelude.Sort.{insert_by, sort_by}
use pok_poly_kalshi.Books.Levels.{
  better_of, best_from, best_bid, best_ask, higher_price, lower_price, offered_levels, goes_after,
  sorted_levels,
}

-- The price of the first level.
abbrev pub front : List (ℤ × ℤ) → Option ℤ
front [] = none
front (l ∷ ls) = some l.0

-- `better` is a strict order, and of two prices neither of which is better both are the same.
pub record IsPriceOrder (better : ℤ → ℤ → Bool) : Type 0 where
  pub trans_not : (a b c : ℤ) → better a b ≡ false → better b c ≡ false → better a c ≡ false
  pub antisym : (a b : ℤ) → better a b ≡ false → better b a ≡ false → a ≡ b
  pub asym : (a b : ℤ) → better a b ≡ true → better b a ≡ false

lower_price-IsPriceOrder : IsPriceOrder lower_price
lower_price-IsPriceOrder = record {
  trans_not = λ a b c h k. ground (arith, h, k);
  antisym = λ a b h k. eq_of_parts a b (ground (arith, h, k));
  asym = λ a b h. ground (arith, h);
}

higher_price-IsPriceOrder : IsPriceOrder higher_price
higher_price-IsPriceOrder = record {
  trans_not = λ a b c h k. ground (arith, h, k);
  antisym = λ a b h k. eq_of_parts a b (ground (arith, h, k));
  asym = λ a b h. ground (arith, h);
}

module _ (better : ℤ → ℤ → Bool) (o : IsPriceOrder better) where
  front-insert :
      (x : ℤ × ℤ) (ls : List (ℤ × ℤ))
      → front (insert_by (goes_after better) x ls) ≡ better_of better x.0 (front ls)
  unfolding insert_by
  front-insert x [] = refl
  front-insert x (l ∷ ls) = ground (arith, o.asym l.0 x.0, o.antisym l.0 x.0)

  abbrev pick : Option ℤ → Option ℤ → Option ℤ
  pick none found = found
  pick (some a) none = some a
  pick (some a) (some y) = better_of better y (some a)

  pick-better :
      (p : ℤ) (acc found : Option ℤ)
      → pick (better_of better p acc) found ≡ pick acc (better_of better p found)
  pick-better p none none = refl
  pick-better p none (some y) = ground (arith, o.asym p y, o.antisym p y)
  pick-better p (some a) none = ground arith
  pick-better p (some a) (some y) =
      ground (arith, o.asym p y, o.asym p a, o.antisym p y, o.trans_not y p a, o.trans_not y a p)

  best_from-sorted :
      (acc : Option ℤ) (m : JsMap ℤ ℤ)
      → best_from better acc m ≡ pick acc (front (sorted_levels better m))
  unfolding best_from sorted_levels offered_levels sort_by
  best_from-sorted none [] = refl
  best_from-sorted (some a) [] = refl
  best_from-sorted acc ((price, size) ∷ m) =
      let level : ℤ × ℤ = (price, size) in
      let ls = sort_by (goes_after better) (offered_levels m) in
      elim (Bool-cases (leb_ℤ size (pos 0))) [
        | inl e ↦
            let none_left : ltb_ℤ (pos 0) size ≡ false = ground (arith, e) in
            rw (e, none_left) (best_from-sorted acc m)
        | inr e ↦
            let offered : ltb_ℤ (pos 0) size ≡ true = ground (arith, e) in
            rw (e, offered)
              (best_from-sorted (better_of better price acc) m
                ∙ (pick-better price acc (front ls) ∙ ap (pick acc) (sym (front-insert level ls))))
      ]

-- The best prices are those of the first sorted levels.
pub best-front :
    (m : JsMap ℤ ℤ)
    → (best_bid m ≡ front (sorted_levels higher_price m))
      × (best_ask m ≡ front (sorted_levels lower_price m))
unfolding best_bid best_ask
best-front m = (
  best_from-sorted higher_price higher_price-IsPriceOrder none m,
  best_from-sorted lower_price lower_price-IsPriceOrder none m,
)
