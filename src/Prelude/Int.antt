-- ===== src/Prelude/Int.antt =====
-- Go's `int` and `int64`: integers of 64 bits that wrap around.
use Prim.Native.Nat.{ℕ, zero, suc, ◌+◌, ◌-◌, ◌*◌, ◌%◌, ◌^◌}
use mathlib.Core.Path.{◌≡◌}
use mathlib.Core.Logic.{◌⊎◌, ◌≢◌}
use mathlib.Core.Bool.{Bool, true, false}
use native.Mathlib.Omega.{arith}
use what_is_it.Prelude.Tests.{if◌then◌else◌, ltb, ◌==◌}

-- `negsuc n` is -(n + 1).
pub data ℤ : Type 0 where
  pos : ℕ → ℤ
  negsuc : ℕ → ℤ

abbrev pub pos_part : ℤ → ℕ
pos_part (pos n) = n
pos_part (negsuc n) = 0

abbrev pub neg_part : ℤ → ℕ
neg_part (pos n) = 0
neg_part (negsuc n) = suc n

abbrev pub ltb_ℤ : ℤ → ℤ → Bool
ltb_ℤ a b = ltb (pos_part a + neg_part b) (pos_part b + neg_part a)

-- The bit pattern of 64 bits, `n < 2 ^ 64`, read as a signed integer.
abbrev pub to_int64 : ℕ → ℤ
to_int64 n = if ltb n (2 ^ 63) then pos n else negsuc (2 ^ 64 - 1 - n)

-- `x++` on an `int`.
abbrev pub increment : ℤ → ℤ
increment (pos n) = if n == 2 ^ 63 - 1 then negsuc (2 ^ 63 - 1) else pos (n + 1)
increment (negsuc zero) = pos 0
increment (negsuc (suc n)) = negsuc n

-- `int64(seconds) * 1000` for `seconds` a `uint64`.
abbrev pub millis_of_seconds : ℕ → ℤ
millis_of_seconds seconds = to_int64 ((seconds * 1000) % 2 ^ 64)

pub ltb_ℤ-asym : (a b : ℤ) → ltb_ℤ a b ≡ true → ltb_ℤ b a ≡ false
ltb_ℤ-asym a b h = ground arith

pub ltb_ℤ-neg_trans : (a b c : ℤ) → ltb_ℤ b a ≡ false → ltb_ℤ c b ≡ false → ltb_ℤ c a ≡ false
ltb_ℤ-neg_trans a b c h k = ground arith

pub ltb_ℤ-apart : (a b : ℤ) → a ≢ b → (ltb_ℤ a b ≡ true) ⊎ (ltb_ℤ b a ≡ true)
ltb_ℤ-apart a b h = ground arith
