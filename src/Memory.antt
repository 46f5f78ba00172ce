-- ===== src/Memory.antt =====
-- The mapped bytes of a segment, as a function from the offset to the byte; the `int64_t` size
-- tags are stored little-endian, and `memcpy` moves a list of bytes.
pub mod Laws
use msgq.Base.{ℕ, zero, suc, ◌+◌, ◌-◌, ◌*◌, ◌/◌, ◌%◌, List, [], ◌∷◌, ◌==◌, if◌then◌else◌, update}

abbrev pub Memory : Type 0
Memory = ℕ → ℕ

-- `memcpy(mem + p, bytes, n)`, the list being the `n` bytes
unfoldable pub write_bytes : Memory → ℕ → List ℕ → Memory
write_bytes mem p [] = mem
write_bytes mem p (x ∷ xs) = write_bytes (update mem p x) (p + 1) xs

-- the `n` bytes from `p` on
unfoldable pub read_bytes : Memory → ℕ → ℕ → List ℕ
read_bytes mem p zero = []
read_bytes mem p (suc n) = mem p ∷ read_bytes mem (p + 1) n

-- the first `k` bytes of a word, low byte first
unfoldable pub to_bytes : ℕ → ℕ → List ℕ
to_bytes zero v = []
to_bytes (suc k) v = v % 256 ∷ to_bytes k (v / 256)

unfoldable pub of_bytes : List ℕ → ℕ
of_bytes [] = 0
of_bytes (x ∷ xs) = x + 256 * of_bytes xs

-- `*(int64_t*)p = v`, `v` as its 64-bit pattern
unfoldable pub write64 : Memory → ℕ → ℕ → Memory
write64 mem p v = write_bytes mem p (to_bytes 8 v)

-- `*(int64_t*)p`, as its 64-bit pattern
unfoldable pub read64 : Memory → ℕ → ℕ
read64 mem p = of_bytes (read_bytes mem p 8)
