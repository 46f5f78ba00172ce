-- ===== src/Vision/Mapping.antt =====
-- The files and mappings behind a `VisionBuf`, of msgq/visionipc/visionbuf.cc.
use msgq.Words.{u64}
use msgq.Vision.Channels.{is_success}
use msgq.Vision.{VisionBuf, allocate}
use msgq.Queue.{done-injective, >>=-done, ◌>>=◌, Run, done, aborted}
use msgq.Fake.Digits.{decimal}
use msgq.Base.{
  refl, ◌∙◌, subst, ap, Bool-cases, ◌+◌, ◌≡◌, inl, inr, Bool, ◌&&◌, List, [], ◌∷◌, ◌++◌, take,
  if◌then◌else◌, ℤ, ℤ-cases, pos, negsuc, codes, ℕ,
}

-- the answers to `open`, `ftruncate`, `mmap`, `munmap` and `close`
pub record Shm : Type 0 where
  pub open_new : List ℕ → ℤ
  pub truncate : ℕ → ℕ → ℤ
  pub map_file : ℤ → ℕ → Bool
  pub unmap : ℕ → ℤ
  pub close : ℤ → ℤ

pub data Mapping : Type 0 where
  file_opened : ℕ → Mapping
  file_removed : List ℕ → Mapping
  file_mapped : ℕ → Mapping
  file_unmapped : ℕ → Mapping
  file_closed : ℤ → Mapping

-- `full_path`, for the process and the counter of its buffers
unfoldable pub buf_path : ℕ → ℕ → List ℕ
buf_path pid offset =
    take 254 (codes "/dev/shm/msgq_visionbuf_" ++ (decimal pid ++ b'_' ∷ decimal offset))

-- `malloc_with_fd`
unfoldable pub malloc_with_fd : Shm → ℕ → ℕ → ℕ → Run (List Mapping × ℕ)
malloc_with_fd shm pid offset len =
    let path = buf_path pid offset in
    elim (shm.open_new path) [
      | negsuc _ ↦ aborted
      | pos fd ↦
          if is_success (shm.truncate fd len) && shm.map_file (pos fd) len
          then done (file_opened fd ∷ file_removed path ∷ file_mapped len ∷ [], fd)
          else aborted
    ]

-- `VisionBuf::allocate`, with the counter behind it
unfoldable pub allocate_buf : Shm → ℕ → ℕ → ℕ → VisionBuf → Run (List Mapping × VisionBuf × ℕ)
allocate_buf shm pid offset size buf = do
  (calls, fd) ← malloc_with_fd shm pid offset (u64 (size + 8))
  done (calls, allocate fd size buf, offset + 1)

-- `VisionBuf::import`
unfoldable pub import_buf : Shm → VisionBuf → Run (List Mapping)
import_buf shm buf = elim buf.fd [
  | negsuc _ ↦ aborted
  | pos fd ↦
      if shm.map_file (pos fd) buf.mmap_len then done (file_mapped buf.mmap_len ∷ []) else aborted
]

-- `VisionBuf::free`
unfoldable pub free_buf : Shm → VisionBuf → List Mapping × ℤ
free_buf shm buf =
    let err = shm.unmap buf.mmap_len in
    if is_success err
    then (file_unmapped buf.mmap_len ∷ file_closed buf.fd ∷ [], shm.close buf.fd)
    else ([], err)

-- the loops over buffers that are freed, whose failures are only reported
unfoldable pub free_bufs : Shm → List VisionBuf → List Mapping
free_bufs shm [] = []
free_bufs shm (buf ∷ bufs) = (free_buf shm buf).0 ++ free_bufs shm bufs

malloc_returned :
    (shm : Shm) (pid offset len : ℕ) {calls : List Mapping} {fd : ℕ}
    → malloc_with_fd shm pid offset len ≡ done (calls, fd)
    → file_opened fd ∷ file_removed (buf_path pid offset) ∷ file_mapped len ∷ [] ≡ calls
unfolding malloc_with_fd
malloc_returned shm pid offset len e = elim (ℤ-cases (shm.open_new (buf_path pid offset))) [
  | inr (n, none_there) ↦ absurd (cc (rw (none_there, malloc_with_fd) at e))
  | inl (fd, there) ↦
      elim (Bool-cases (is_success (shm.truncate fd len) && shm.map_file (pos fd) len)) [
        | inr denied ↦ absurd (cc (rw (there, denied, malloc_with_fd) at e))
        | inl granted ↦ cc (rw (there, granted, malloc_with_fd) at e)
      ]
]

-- A buffer that was allocated is unmapped by as much as was mapped, and its own file is closed, if
-- `munmap` succeeds.
allocate_buf-free_buf :
    (shm : Shm) (pid offset size : ℕ) (buf : VisionBuf) {calls : List Mapping} {made : VisionBuf}
    {next : ℕ}
    → shm.unmap made.mmap_len ≡ pos 0
    → allocate_buf shm pid offset size buf ≡ done (calls, made, next)
    → (fd : ℕ) × (file_opened fd
          ∷ file_removed (buf_path pid offset)
          ∷ file_mapped made.mmap_len
          ∷ []
        ≡ calls)
      × ((free_buf shm made).0 ≡ file_unmapped made.mmap_len ∷ file_closed (pos fd) ∷ [])
unfolding allocate_buf free_buf allocate
allocate_buf-free_buf shm pid offset size buf {calls} {made} freed e =
    let ((acts, fd), got, rest) = >>=-done (malloc_with_fd shm pid offset (u64 (size + 8))) _ e in
    let same : allocate fd size buf ≡ made = ap (λ x. x.1) (done-injective rest) in
    let listed =
      malloc_returned shm pid offset (u64 (size + 8)) got ∙ ap (λ x. x.0) (done-injective rest) in
    let both =
      subst
        (λ b.
          shm.unmap b.mmap_len ≡ pos 0
          → (file_opened fd ∷ file_removed (buf_path pid offset) ∷ file_mapped b.mmap_len ∷ []
              ≡ calls)
            × ((free_buf shm b).0 ≡ file_unmapped b.mmap_len ∷ file_closed (pos fd) ∷ []))
        same (λ succeeded. (listed, rw succeeded refl)) freed in
    (fd, both.0, both.1)
