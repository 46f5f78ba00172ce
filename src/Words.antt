-- ===== src/Words.antt =====
-- The integer macros of msgq/msgq.h and the C arithmetic that the queue relies on. A `uint64_t`
-- or `uint32_t` is a number below 2^64 or 2^32, and the wrap-around is written out.
use msgq.Base.{
  ◌-◌, negsuc, ltb, if◌then◌else◌, ℤ, pos, ℕ, ◌+◌, ◌*◌, ◌/◌, ◌%◌, ◌^◌, ◌≤◌, ◌<◌, ◌≡◌, Bool, ◌||◌,
  arith, leb, ◌==◌,
}

abbrev pub u32 : ℕ → ℕ
u32 n = n % 2 ^ 32

abbrev pub u64 : ℕ → ℕ
u64 n = n % 2 ^ 64

-- `ALIGN(n)`: `(n + 7) & -8` in 64 bits.
unfoldable pub align : ℕ → ℕ
align n = u64 (n + 7) / 8 * 8

-- `PACK64`: the two halves do not overlap, so `|` is a sum.
unfoldable pub pack64 : ℕ → ℕ → ℕ
pack64 higher lower = u32 higher * 2 ^ 32 + u32 lower

-- The two results of `UNPACK64`, each stored in a `uint32_t`.
unfoldable pub higher : ℕ → ℕ
higher input = u32 (input / 2 ^ 32)

unfoldable pub lower : ℕ → ℕ
lower input = input % 2 ^ 32

-- The `int64_t` test `x <= 0` on a 64-bit pattern.
unfoldable pub signed_le_zero : ℕ → Bool
signed_le_zero x = x == 0 || leb (2 ^ 63) x

-- `ALIGN` rounds up to a multiple of 8 by less than 8, as long as the sum does not wrap.
pub align_bounds : (n : ℕ) → n + 7 < 2 ^ 64 → (n ≤ align n) × (align n < n + 8) × (align n % 8 ≡ 0)
unfolding align
align_bounds n h = omega arith

-- An aligned offset comes out of `ALIGN`.
pub align-add : (p n : ℕ) → p % 8 ≡ 0 → p + n + 7 < 2 ^ 64 → align (p + n) ≡ p + align n
unfolding align
align-add p n h b = omega arith

-- `UNPACK64` gives back what `PACK64` was given, cut to 32 bits each.
pub unpack-pack64 : (h l : ℕ) → (higher (pack64 h l) ≡ u32 h) × (lower (pack64 h l) ≡ u32 l)
unfolding pack64 higher lower
unpack-pack64 h l = omega arith

pub higher-pack64 : (h l : ℕ) → h < 2 ^ 32 → higher (pack64 h l) ≡ h
higher-pack64 h l b = omega (arith, (unpack-pack64 h l).0)

pub lower-pack64 : (h l : ℕ) → l < 2 ^ 32 → lower (pack64 h l) ≡ l
lower-pack64 h l b = omega (arith, (unpack-pack64 h l).1)

pub lower-lt : (x : ℕ) → lower x < 2 ^ 32
unfolding lower
lower-lt x = omega arith

pub higher-lt : (x : ℕ) → higher x < 2 ^ 32
unfolding higher
higher-lt x = omega arith

-- `PACK64` after `UNPACK64` restores any 64-bit word.
pub pack64-unpack : (x : ℕ) → x < 2 ^ 64 → pack64 (higher x) (lower x) ≡ x
unfolding pack64 higher lower
pack64-unpack x b = omega arith

-- A `size_t` returned as an `int`.
unfoldable pub int_of : ℕ → ℤ
int_of n = let w = u32 n in if ltb w (2 ^ 31) then pos w else negsuc (2 ^ 32 - w - 1)

pub int_of_small : (n : ℕ) → n < 2 ^ 31 → int_of n ≡ pos n
unfolding int_of
int_of_small n h = ground arith
