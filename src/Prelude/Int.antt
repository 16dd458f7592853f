-- ===== src/Prelude/Int.antt =====
-- Signed integers over the native numbers: the `Int` columns whose value may fall below zero.
use Prim.Native.Nat.{ℕ, suc, ◌+◌, ◌-◌, ◌≤◌}
use mathlib.Core.Path.{◌≡◌}
use mathlib.Core.Bool.{Bool, true}
use native.Mathlib.Omega.{arith}
use meduman_backend.Prelude.Tests.{ltb, leb, ◌==◌, if◌then◌else◌}
use meduman_backend.Prelude.Text.{decimal, concat}
use Prim.Native.String.{String}
use mathlib.Core.List.{[], ◌∷◌}

-- `negsuc n` is -(n + 1).
pub data ℤ : Type 0 where
  pos : ℕ → ℤ
  negsuc : ℕ → ℤ

abbrev pub pos_part : ℤ → ℕ
pos_part (pos n) = n
pos_part (negsuc n) = 0

abbrev pub neg_part : ℤ → ℕ
neg_part (pos n) = 0
neg_part (negsuc n) = suc n

-- a - b, as an integer.
abbrev pub sub_ℕ : ℕ → ℕ → ℤ
sub_ℕ a b = if leb b a then pos (a - b) else negsuc (b - a - 1)

infixl 65 ◌+ℤ◌ ◌-ℤ◌
infix 50 ◌≤ℤ◌ ◌=ℤ◌
unfoldable pub ◌+ℤ◌ : ℤ → ℤ → ℤ
a +ℤ b = sub_ℕ (pos_part a + pos_part b) (neg_part a + neg_part b)

unfoldable pub ◌-ℤ◌ : ℤ → ℤ → ℤ
a -ℤ b = sub_ℕ (pos_part a + neg_part b) (neg_part a + pos_part b)

abbrev pub ◌≤ℤ◌ : ℤ → ℤ → Type 0
a ≤ℤ b = pos_part a + neg_part b ≤ pos_part b + neg_part a

-- The test `a === b`.
abbrev pub ◌=ℤ◌ : ℤ → ℤ → Bool
a =ℤ b = (pos_part a + neg_part b) == (pos_part b + neg_part a)

-- The test `a < b`.
abbrev pub ltb_ℤ : ℤ → ℤ → Bool
ltb_ℤ a b = ltb (pos_part a + neg_part b) (pos_part b + neg_part a)

-- An integer as a template literal writes it.
unfoldable pub kobo : ℤ → String
unfolding decimal
kobo (pos n) = decimal n
kobo (negsuc n) = concat ("-" ∷ decimal (suc n) ∷ [])

pub eq_of_=ℤ : (a b : ℤ) → (a =ℤ b) ≡ true → a ≡ b
eq_of_=ℤ a b h = ground arith
