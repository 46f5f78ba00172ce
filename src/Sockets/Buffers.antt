-- ===== src/Sockets/Buffers.antt =====
-- `Message` of msgq/ipc.cc: the buffer that it owns, on a heap of arrays.
use msgq.Queue.{◌>>=◌, Run, done, aborted}
use msgq.Base.{
  true, false, ◌+◌, ◌<◌, ◌≡◌, refl, inl, inr, Option, none, some, List, take, ltb, ltb→lt,
  Bool-cases, update, ℕ,
}

-- The arrays that `new char[n]` made and no `delete[]` took, by address, and the address of the
-- next one.
pub record Heap : Type 0 where
  pub next : ℕ
  pub arrays : ℕ → Option (List ℕ)

-- `Message`
pub record Message : Type 0 where
  pub buffer : Option ℕ
  pub size : ℕ

abbrev pub new_message : Message
new_message = record { buffer = none; size = 0 }

-- `new char[n]`, its bytes being `bytes`
unfoldable pub new_array : List ℕ → Heap → ℕ × Heap
new_array bytes heap =
    (heap.next, record { next = heap.next + 1; arrays = update heap.arrays heap.next (some bytes) })

-- `delete[] p`; that of a null pointer does nothing, and that of an array which is not there is a
-- failure
unfoldable pub delete_array : Option ℕ → Heap → Run Heap
delete_array none heap = done heap
delete_array (some p) heap = elim (heap.arrays p) [
  | none ↦ aborted
  | some bytes ↦ done (record heap { arrays = update heap.arrays p none })
]

-- `Message::init(sz)`, `bytes` being what the new array holds
unfoldable pub init : List ℕ → ℕ → Heap → Message × Heap
init bytes size heap =
    let (p, heap') = new_array bytes heap in (record { buffer = some p; size = size }, heap')

-- `Message::init(d, sz)`
unfoldable pub init_copy : List ℕ → ℕ → Heap → Message × Heap
init_copy source size heap = init (take size source) size heap

-- `Message::takeOwnership`
unfoldable pub own : ℕ → ℕ → Message
own p size = record { buffer = some p; size = size }

-- `Message::close`, and `Message::~Message`
unfoldable pub close : Message → Heap → Run (Message × Heap)
close m heap = elim (ltb 0 m.size) [
  | false ↦ done (record m { size = 0 }, heap)
  | true ↦ do heap' ← delete_array m.buffer heap; done (record m { size = 0 }, heap')
]

-- A message that is not empty holds its buffer.
abbrev pub Holds : Message → Heap → Type 0
Holds m heap =
    0 < m.size → (p : ℕ) × (bytes : List ℕ) × (m.buffer ≡ some p) × (heap.arrays p ≡ some bytes)

deleted :
    (p : ℕ) (heap : Heap) (bytes : List ℕ)
    → heap.arrays p ≡ some bytes
    → delete_array (some p) heap ≡ done (record heap { arrays = update heap.arrays p none })
unfolding delete_array
deleted p heap bytes there = rw (delete_array, there) refl

-- A message that holds its buffer is closed once, and closing it again does nothing.
close_twice :
    (m : Message) (heap : Heap)
    → Holds m heap
    → (heap' : Heap) × (close m heap ≡ done (record m { size = 0 }, heap'))
      × (close (record m { size = 0 }) heap' ≡ done (record m { size = 0 }, heap'))
unfolding close
close_twice m heap holds = elim (Bool-cases (ltb 0 m.size)) [
  | inr bare ↦ (heap, rw (close, bare) refl, refl)
  | inl full ↦
      let (p, bytes, owned, there) = holds (ltb→lt 0 m.size full) in
      (
        record heap { arrays = update heap.arrays p none },
        rw (close, full) (rw (owned, deleted p heap bytes there) refl),
        refl,
      )
]
