-- ===== src/Prelude/Bits.antt =====
-- The bits of a byte: tests and writes by masks, as `x & (1 << k)` and `x | (1 << k)`, with the
-- laws of bytes checked over all values.
use Prim.Native.Nat.{ℕ, zero, suc, ◌^◌, ◌<◌, bit_and, bit_or}
use mathlib.Core.Path.{◌≡◌, refl}
use mathlib.Core.Bool.{Bool, true, false, not, ◌&&◌, ◌||◌}
use native.Mathlib.Omega.{arith}
use callstack.Prelude.Tests.{◌==◌, ltb, ltb→lt}

-- `x & (1 << k) != 0`
unfoldable pub has_bit : ℕ → ℕ → Bool
has_bit x k = not (bit_and x (2 ^ k) == 0)

-- `x | (1 << k)`
unfoldable pub with_bit : ℕ → ℕ → ℕ
with_bit x k = bit_or x (2 ^ k)

-- The numbers under a bound pass a test, one after the other.
unfoldable pub passes : (ℕ → Bool) → ℕ → Bool
passes test zero = true
passes test (suc bound) = passes test bound && test bound

pub passes_lt :
    (test : ℕ → Bool) (bound : ℕ) → passes test bound ≡ true → (v : ℕ) → v < bound → test v ≡ true
unfolding passes
passes_lt test zero ok v under = absurd (omega arith)
passes_lt test (suc bound) ok v under =
    let earlier = passes_lt test bound in ground (arith, earlier (ground arith) v)

same : Bool → Bool → Bool
same true b = b
same false b = not b

same_eq : (a b : Bool) → same a b ≡ true → a ≡ b
unfolding same
same_eq a b h = ground arith

bit_law : ℕ → ℕ → ℕ → Bool
bit_law x k j = same (has_bit (with_bit x k) j) ((j == k) || has_bit x j)

bit_table : passes (λ x. passes (λ k. passes (bit_law x k) 8) 8) 256 ≡ true
unfolding passes bit_law same has_bit with_bit
bit_table = refl

range_table : passes (λ x. passes (λ k. ltb (with_bit x k) 256) 8) 256 ≡ true
unfolding passes with_bit
range_table = refl

pub has_bit-with_bit :
    (x k j : ℕ) → x < 256 → k < 8 → j < 8 → has_bit (with_bit x k) j ≡ ((j == k) || has_bit x j)
unfolding same bit_law
has_bit-with_bit x k j hx hk hj =
    same_eq _ _ (passes_lt _ 8 (passes_lt _ 8 (passes_lt _ 256 bit_table x hx) k hk) j hj)

pub with_bit_lt : (x k : ℕ) → x < 256 → k < 8 → with_bit x k < 256
with_bit_lt x k hx hk = ltb→lt _ _ (passes_lt _ 8 (passes_lt _ 256 range_table x hx) k hk)

pub zero_bits : (k : ℕ) → k < 8 → has_bit 0 k ≡ false
unfolding has_bit passes same
zero_bits k h = same_eq _ _ (passes_lt (λ j. same (has_bit 0 j) false) 8 refl k h)
