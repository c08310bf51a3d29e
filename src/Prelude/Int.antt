-- ===== src/Prelude/Int.antt =====
-- Signed integers over the native numbers, under the library's names. Amounts of the program are
-- integers: a count of a fixed decimal unit. `omega` works through the two parts of an integer.
use Prim.Native.Nat.{ℕ, suc, ◌+◌, ◌-◌, ◌*◌, ◌≤◌, ◌<◌}
use mathlib.Core.Path.{◌≡◌, ap}
use mathlib.Core.Bool.{Bool, true}
use native.Mathlib.Omega.{arith}
use mathlib.Core.Logic.{◌↔◌}
use pok_poly_kalshi.Prelude.Tests.{leb, ltb, nat_beq, nat_beq_iff, MapKey, if◌then◌else◌}

-- `negsuc n` is -(n + 1).
pub data ℤ : Type 0 where
  pos : ℕ → ℤ
  negsuc : ℕ → ℤ

abbrev pub pos_part : ℤ → ℕ
pos_part (pos n) = n
pos_part (negsuc n) = 0

abbrev pub neg_part : ℤ → ℕ
neg_part (pos n) = 0
neg_part (negsuc n) = suc n

-- a - b, as an integer.
abbrev pub sub_ℕ : ℕ → ℕ → ℤ
sub_ℕ a b = if leb b a then pos (a - b) else negsuc (b - a - 1)

infixl 65 ◌+ℤ◌ ◌-ℤ◌
infix 50 ◌≤ℤ◌ ◌<ℤ◌
unfoldable pub ◌+ℤ◌ : ℤ → ℤ → ℤ
a +ℤ b = sub_ℕ (pos_part a + pos_part b) (neg_part a + neg_part b)

unfoldable pub ◌-ℤ◌ : ℤ → ℤ → ℤ
a -ℤ b = sub_ℕ (pos_part a + neg_part b) (neg_part a + pos_part b)

-- A multiple by a natural number.
unfoldable pub scale : ℕ → ℤ → ℤ
scale k (pos n) = pos (k * n)
scale k (negsuc n) = sub_ℕ 0 (k * suc n)

abbrev pub ◌≤ℤ◌ : ℤ → ℤ → Type 0
a ≤ℤ b = pos_part a + neg_part b ≤ pos_part b + neg_part a

abbrev pub ◌<ℤ◌ : ℤ → ℤ → Type 0
a <ℤ b = pos_part a + neg_part b < pos_part b + neg_part a

abbrev pub ltb_ℤ : ℤ → ℤ → Bool
ltb_ℤ a b = ltb (pos_part a + neg_part b) (pos_part b + neg_part a)

abbrev pub leb_ℤ : ℤ → ℤ → Bool
leb_ℤ a b = leb (pos_part a + neg_part b) (pos_part b + neg_part a)

-- `Math.min` and `Math.max`.
abbrev pub min_ℤ : ℤ → ℤ → ℤ
min_ℤ a b = if ltb_ℤ b a then b else a

abbrev pub max_ℤ : ℤ → ℤ → ℤ
max_ℤ a b = if ltb_ℤ a b then b else a

abbrev pub neg : ℤ → ℤ
neg a = sub_ℕ (neg_part a) (pos_part a)

abbrev pub abs : ℤ → ℤ
abs a = pos (pos_part a + neg_part a)

pub +ℤ_parts :
    (a b : ℤ)
    → pos_part (a +ℤ b) + neg_part a + neg_part b ≡ neg_part (a +ℤ b) + pos_part a + pos_part b
unfolding ◌+ℤ◌
+ℤ_parts a b = ground arith

pub -ℤ_parts :
    (a b : ℤ)
    → pos_part (a -ℤ b) + neg_part a + pos_part b ≡ neg_part (a -ℤ b) + pos_part a + neg_part b
unfolding ◌-ℤ◌
-ℤ_parts a b = ground arith

pub scale_parts :
    (k : ℕ) (a : ℤ)
    → (pos_part (scale k a) ≡ k * pos_part a) × (neg_part (scale k a) ≡ k * neg_part a)
unfolding scale
scale_parts k (pos n) = ground arith
scale_parts k (negsuc n) = ground arith

pub eq_of_parts : (a b : ℤ) → pos_part a + neg_part b ≡ pos_part b + neg_part a → a ≡ b
eq_of_parts a b h = ground arith

pub ruleset int_laws = (arith, +ℤ_parts, -ℤ_parts, scale_parts, eq_of_parts)

-- `===` on integers.
abbrev pub same_ℤ : ℤ → ℤ → Bool
same_ℤ a b = nat_beq (pos_part a + neg_part b) (pos_part b + neg_part a)

pub same_ℤ_iff : (a b : ℤ) → (same_ℤ a b ≡ true) ↔ (a ≡ b)
same_ℤ_iff a b = (
  λ h. eq_of_parts a b ((nat_beq_iff (pos_part a + neg_part b) (pos_part b + neg_part a)).0 h),
  λ e.
      (nat_beq_iff (pos_part a + neg_part b) (pos_part b + neg_part a)).1
        (omega (arith, ap pos_part e, ap neg_part e)),
)

instance abbrev pub int_key : MapKey ℤ
int_key = record { same_iff = same_ℤ_iff; same = same_ℤ }
