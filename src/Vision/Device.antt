-- ===== src/Vision/Device.antt =====
-- The buffers in device memory of msgq/visionipc/visionbuf_ion.cc, over a driver and a kernel.
pub mod Ledger
pub mod Taking
pub mod Freeing
use msgq.Words.{u64}
use msgq.Vision.Channels.{is_success}
use msgq.Vision.{VisionBuf, allocate}
use msgq.Polling.{is_minus_one}
use msgq.Queue.{◌>>=◌, Run, done, aborted}
use msgq.Base.{
  zero, suc, ◌+◌, Bool, true, false, ◌&&◌, ◌||◌, Option, none, some, ◌==◌, if◌then◌else◌, ℤ, pos,
  negsuc, ℕ,
}

-- The requests of `ioctl`, with what the code fills in: ION_IOC_ALLOC (length and alignment),
-- ION_IOC_SHARE and ION_IOC_FREE (a handle), ION_IOC_IMPORT (a descriptor), and ION_IOC_CUSTOM with
-- ION_IOC_INV_CACHES or ION_IOC_CLEAN_CACHES (a handle and a length).
pub data Request : Type 0 where
  alloc : ℕ → ℕ → Request
  share : ℕ → Request
  take_in : ℕ → Request
  invalidate_caches : ℕ → ℕ → Request
  clean_caches : ℕ → ℕ → Request
  give_back : ℕ → Request

-- what `ioctl` returns, whether `errno` is EINTR, and the handle or descriptor that it fills in
pub record Outcome : Type 0 where
  pub ret : ℤ
  pub eintr : Bool
  pub filled : ℕ

-- `open("/dev/ion")`, `ioctl`, and `mmap`, `munmap` and `close`
pub record Ion (W : Type 0) : Type 0 where
  pub open_device : W → ℤ × W
  pub ioctl : ℕ → Request → W → Outcome × W
  pub map_memory : ℕ → ℕ → W → Bool × W
  pub unmap_memory : ℕ → W → ℤ × W
  pub close_file : ℤ → W → ℤ × W

-- `ret == -1 && errno == EINTR`
abbrev pub was_interrupted : Outcome → Bool
was_interrupted a = is_minus_one a.ret && a.eintr

-- `HANDLE_EINTR`, which may still repeat the call so many times
unfoldable pub handle_eintr : {W : Type 0} → ℕ → (W → Outcome × W) → W → Outcome × W
handle_eintr zero call w = call w
handle_eintr (suc n) call w =
    let (a, v) = call w in
    elim (was_interrupted a) [ true ↦ handle_eintr n call v | false ↦ (a, v) ]

-- the bound on `try_cnt`
abbrev pub repeats : ℕ
repeats = 100

-- `VISIONBUF_SYNC_FROM_DEVICE`, `VISIONBUF_SYNC_TO_DEVICE`
abbrev pub sync_from_device : ℕ
sync_from_device = 0

abbrev pub sync_to_device : ℕ
sync_to_device = 1

-- the request of a sync
abbrev sync_request : ℕ → VisionBuf → Request
sync_request dir buf =
    if dir == sync_from_device
    then invalidate_caches buf.handle buf.len
    else clean_caches buf.handle buf.len

module _ {W : Type 0} (ion : Ion W) where
  -- `ion_fd`, whose first call opens the device: the state holds its descriptor from then on.
  unfoldable pub ion_fd : Option ℕ × W → Run (ℕ × W)
  ion_fd (some fd, w) = done (fd, w)
  ion_fd (none, w) =
      let (fd, v) = ion.open_device w in
      elim fd [ pos device ↦ done (device, v) | negsuc _ ↦ aborted ]

  -- `err = HANDLE_EINTR(ioctl(…)); assert(err == 0)`
  unfoldable pub ask : ℕ → Request → W → Run (ℕ × W)
  ask device request w =
      let (a, v) = handle_eintr repeats (ion.ioctl device request) w in
      if is_success a.ret then done (a.filled, v) else aborted

  -- `mmap` and `assert(addr != MAP_FAILED)`
  unfoldable pub map_asserted : ℕ → ℕ → W → Run W
  map_asserted fd len w =
      let (there, v) = ion.map_memory fd len w in if there then done v else aborted

  -- `VisionBuf::allocate`
  unfoldable pub allocate_ion : ℕ → VisionBuf → Option ℕ × W → Run (VisionBuf × Option ℕ × W)
  allocate_ion size buf s = do
    (device, w) ← ion_fd s
    (handle, w1) ← ask device (alloc (u64 (size + 8)) 4096) w
    (fd, w2) ← ask device (share handle) w1
    w3 ← map_asserted fd (u64 (size + 8)) w2
    done (record (allocate fd size buf) { handle = handle }, some device, w3)

  -- `VisionBuf::import`
  unfoldable pub import_ion : VisionBuf → Option ℕ × W → Run (VisionBuf × Option ℕ × W)
  import_ion buf s = elim buf.fd [
    | negsuc _ ↦ aborted
    | pos fd ↦ do
      (device, w) ← ion_fd s
      (handle, w1) ← ask device (take_in fd) w
      w2 ← map_asserted fd buf.mmap_len w1
      done (record buf { handle = handle }, some device, w2)
  ]

  -- `VisionBuf::sync`
  unfoldable pub sync_ion : ℕ → VisionBuf → Option ℕ × W → Run (ℤ × Option ℕ × W)
  sync_ion dir buf s = elim ((dir == sync_from_device) || (dir == sync_to_device)) [
    | false ↦ aborted
    | true ↦ do
      (device, w) ← ion_fd s
      let (a, v) = handle_eintr repeats (ion.ioctl device (sync_request dir buf)) w in
          done (a.ret, some device, v)
  ]

  -- the end of `VisionBuf::free`
  unfoldable pub free_handle : ℕ → Option ℕ × W → Run (ℤ × Option ℕ × W)
  free_handle handle s = do
    (device, w) ← ion_fd s
    let (a, v) = handle_eintr repeats (ion.ioctl device (give_back handle)) w in
        done (a.ret, some device, v)

  -- `VisionBuf::free`
  unfoldable pub free_ion : VisionBuf → Option ℕ × W → Run (ℤ × Option ℕ × W)
  free_ion buf (known, w) =
      let (err, w1) = ion.unmap_memory buf.mmap_len w in
      elim (is_success err) [
        | false ↦ done (err, known, w1)
        | true ↦
            let (failure, w2) = ion.close_file buf.fd w1 in
            elim (is_success failure) [
              | false ↦ done (failure, known, w2)
              | true ↦ free_handle buf.handle (known, w2)
            ]
      ]
