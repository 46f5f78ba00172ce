-- ===== src/Lifecycle.antt =====
-- `msgq_get_uid`, `msgq_new_queue`, `msgq_close_queue`, `msgq_msg_init_data` and
-- `msgq_wait_for_subscriber` of msgq/msgq.cc. What a call does outside the process is a list of
-- system calls, in order.
pub mod Balance
pub mod Signals
use msgq.Words.{u32, u64}
use msgq.Subscriber.{msg_init_size}
use msgq.Queue.{spinning, max_readers, Queue, Msg, Run, done, aborted}
use msgq.Base.{
  ◌<◌, ◌≡◌, refl, ◌↔◌, ◌⊎◌, inl, inr, arith, ◌==◌, Bool-cases, String, ◌+◌, ◌-◌, ◌*◌, ◌^◌, Bool,
  true, false, Option, none, some, List, [], ◌∷◌, take, ltb, if◌then◌else◌, ℤ, pos, negsuc, concat,
  ℕ,
}

-- `msgq_get_uid`: 32 random bits above the thread's id, which is below 2^32, so that `|` is a sum.
unfoldable pub get_uid : ℕ → ℕ → ℕ
get_uid random tid = u64 (u32 random * 2 ^ 32) + u32 tid

-- What the environment and the operating system answer: the two variables that are looked up, and
-- the results of `open`, `ftruncate` and `mmap` (with the file, the length and whether the pages
-- are populated).
pub record Host : Type 0 where
  pub prefix : Option String
  pub preallocate : Bool
  pub open_file : String → ℤ
  pub truncate : ℕ → ℕ → ℤ
  pub map_file : ℕ → ℕ → Bool → Bool

pub data Call : Type 0 where
  signal_handled : Call
  opened : String → ℕ → Call
  truncated : ℕ → ℕ → Call
  mapped_in : ℕ → ℕ → Call
  closed : ℕ → Call
  unmapped : ℕ → Call

-- `sizeof(msgq_header_t)`
abbrev pub header_size : ℕ
header_size = 8 * (3 + 3 * max_readers)

-- `base_path`, with the prefix of the environment
abbrev pub base_path : Option String → String
base_path none = "/dev/shm/msgq_"
base_path (some prefix) = concat "/dev/shm/msgq_" (concat prefix "/")

-- the handle that a successful `msgq_new_queue` leaves
unfoldable pub set_up : Queue → String → ℕ → Queue
set_up q path size = record q {
  mapped = true;
  size = size;
  reader_id = negsuc 0;
  endpoint = path;
  read_conflate = false;
}

-- from the call of `mmap` on
unfoldable pub map_queue : Host → Queue → String → ℕ → ℕ → ℤ × Queue × List Call
map_queue host q path size fd =
    let n = size + header_size in
    if host.map_file fd n host.preallocate
    then (pos 0, set_up q path size, mapped_in fd n ∷ closed fd ∷ [])
    else (negsuc 0, q, closed fd ∷ [])

-- from the call of `ftruncate` on
unfoldable pub size_queue : Host → Queue → String → ℕ → ℕ → ℤ × Queue × List Call
size_queue host q path size fd = elim (host.truncate fd (size + header_size)) [
  | negsuc _ ↦ (negsuc 0, q, closed fd ∷ [])
  | pos _ ↦
      let (rc, q', calls) = map_queue host q path size fd in
      (rc, q', truncated fd (size + header_size) ∷ calls)
]

-- from the call of `open` on
unfoldable pub open_queue : Host → Queue → String → ℕ → ℤ × Queue × List Call
open_queue host q path size =
    let full_path = concat (base_path host.prefix) path in
    elim (host.open_file full_path) [
      | negsuc _ ↦ (negsuc 0, q, [])
      | pos fd ↦
          let (rc, q', calls) = size_queue host q path size fd in
          (rc, q', opened full_path fd ∷ calls)
    ]

-- `msgq_new_queue`, on a handle whose fields may hold anything
unfoldable pub new_queue : Host → Queue → String → ℕ → Run (ℤ × Queue × List Call)
new_queue host q path size =
    if ltb size (2 ^ 32 - 1)
    then (let (rc, q', calls) = open_queue host q path size in
        done (rc, q', signal_handled ∷ calls))
    else aborted

-- `msgq_close_queue`
unfoldable pub close_queue : Queue → List Call
close_queue q = if q.mapped then unmapped (q.size + header_size) ∷ [] else []

-- `msgq_msg_init_data`
unfoldable pub msg_init_data : (ℕ → Bool) → List ℕ → ℕ → Msg × ℤ
msg_init_data alloc bytes size = msg_init_size alloc size (take size bytes)

-- `msgq_wait_for_subscriber`, given what each load of the counter of readers sees
unfoldable pub wait_for_subscriber : List ℕ → Run (Unit {0})
wait_for_subscriber [] = spinning
wait_for_subscriber (n ∷ loads) =
    let rest = wait_for_subscriber loads in if n == 0 then rest else done tt

-- It returns exactly if a load sees a reader.
abbrev SeesOne : List ℕ → Type 0
SeesOne [] = ⊥
SeesOne (n ∷ loads) = (0 < n) ⊎ SeesOne loads

wait_for_subscriber_iff : (loads : List ℕ) → (wait_for_subscriber loads ≡ done tt) ↔ SeesOne loads
unfolding wait_for_subscriber
wait_for_subscriber_iff [] = (λ e. cc e, λ h. absurd h)
wait_for_subscriber_iff (n ∷ loads) = elim (Bool-cases (n == 0)) [
  | inl none_yet ↦ rw none_yet (
    λ e. inr ((wait_for_subscriber_iff loads).0 e),
    λ h. (wait_for_subscriber_iff loads).1 (later h none_yet),
  )
  | inr there ↦ rw there (λ e. inl (ground (arith, there)), λ h. refl)
]
  where
    later : (0 < n) ⊎ SeesOne loads → n == 0 ≡ true → SeesOne loads
    later (inl some_reader) e = absurd (ground (arith, some_reader, e))
    later (inr h) e = h
