-- ===== src/Memory/Laws.antt =====
-- Reads after writes: the same place, another place, and the size tag.
use msgq.Base.{
  ◌++◌, ℕ, zero, suc, ◌+◌, ◌/◌, ◌^◌, ◌≤◌, ◌<◌, ◌≡◌, refl, ap, ◌∙◌, ◌⊎◌, inl, List, [], ◌∷◌, arith,
  length, update,
}
use msgq.Memory.{Memory, write_bytes, read_bytes, to_bytes, of_bytes, write64, read64}

-- The two memories agree on the offsets from `lo` up to `hi`.
abbrev pub Agree : Memory → Memory → ℕ → ℕ → Type 0
Agree mem mem' lo hi = (a : ℕ) → lo ≤ a → a < hi → mem' a ≡ mem a

pub write_bytes_outside :
    (mem : Memory) (p : ℕ) (xs : List ℕ) (a : ℕ)
    → ((a < p) ⊎ (p + length xs ≤ a))
    → write_bytes mem p xs a ≡ mem a
unfolding write_bytes
write_bytes_outside mem p [] a h = refl
write_bytes_outside mem p (x ∷ xs) a h =
    ground (arith, write_bytes_outside (update mem p x) (p + 1) xs a)

pub read_bytes-Agree :
    (mem mem' : Memory) (p n : ℕ)
    → Agree mem mem' p (p + n)
    → read_bytes mem' p n ≡ read_bytes mem p n
unfolding read_bytes
read_bytes-Agree mem mem' p zero h = refl
read_bytes-Agree mem mem' p (suc n) h = ground (
  arith,
  h p (omega arith) (omega arith),
  read_bytes-Agree mem mem' (p + 1) n (λ a l u. h a (omega arith) (omega arith)),
)

-- What was written is read back.
pub read_bytes-write_bytes :
    (mem : Memory) (p : ℕ) (xs : List ℕ) → read_bytes (write_bytes mem p xs) p (length xs) ≡ xs
unfolding write_bytes read_bytes
read_bytes-write_bytes mem p [] = refl
read_bytes-write_bytes mem p (x ∷ xs) = ground (
  arith,
  write_bytes_outside (update mem p x) (p + 1) xs p (inl (omega arith)),
  read_bytes-write_bytes (update mem p x) (p + 1) xs,
)

pub length-read_bytes : (mem : Memory) (p n : ℕ) → length (read_bytes mem p n) ≡ n
unfolding read_bytes
length-read_bytes mem p zero = refl
length-read_bytes mem p (suc n) = ap suc (length-read_bytes mem (p + 1) n)

pub length-to_bytes : (k v : ℕ) → length (to_bytes k v) ≡ k
unfolding to_bytes
length-to_bytes zero v = refl
length-to_bytes (suc k) v = ap suc (length-to_bytes k (v / 256))

-- A 64-bit word survives being cut into bytes.
of_bytes-to_bytes : (v : ℕ) → v < 2 ^ 64 → of_bytes (to_bytes 8 v) ≡ v
unfolding of_bytes to_bytes
of_bytes-to_bytes v h = omega arith

pub read64-write64 : (mem : Memory) (p v : ℕ) → v < 2 ^ 64 → read64 (write64 mem p v) p ≡ v
unfolding read64 write64 to_bytes
read64-write64 mem p v h =
    ap of_bytes (read_bytes-write_bytes mem p (to_bytes 8 v)) ∙ of_bytes-to_bytes v h

pub write64_outside :
    (mem : Memory) (p v a : ℕ) → ((a < p) ⊎ (p + 8 ≤ a)) → write64 mem p v a ≡ mem a
unfolding write64
write64_outside mem p v a h =
    write_bytes_outside mem p (to_bytes 8 v) a (ground (arith, length-to_bytes 8 v))

pub read64-Agree :
    (mem mem' : Memory) (p : ℕ) → Agree mem mem' p (p + 8) → read64 mem' p ≡ read64 mem p
unfolding read64
read64-Agree mem mem' p h = ap of_bytes (read_bytes-Agree mem mem' p 8 h)

-- a byte among those read
pub read_bytes-at :
    (mem : Memory) (p n : ℕ) (got : List ℕ) (x : ℕ) (rest : List ℕ)
    → read_bytes mem p n ≡ got ++ x ∷ rest
    → mem (p + length got) ≡ x
unfolding read_bytes
read_bytes-at mem p zero [] x rest e = cc
read_bytes-at mem p zero (y ∷ got) x rest e = cc
read_bytes-at mem p (suc n) [] x rest e = ground arith
read_bytes-at mem p (suc n) (y ∷ got) x rest e =
    ground (arith, read_bytes-at mem (p + 1) n got x rest (cc))
