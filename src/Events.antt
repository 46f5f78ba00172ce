-- ===== src/Events.antt =====
-- `Event` and `poll_events` of msgq/event.cc, over what the kernel does with its pipes.
pub mod Drain
pub mod Choice
use msgq.Words.{int_of}
use msgq.Base.{
  zero, suc, ◌+◌, ◌-◌, ◌*◌, Bool, true, false, Option, none, some, List, [], ◌∷◌, ltb, ◌==◌,
  if◌then◌else◌, ℤ, pos, negsuc, ℕ,
}

-- `errno`, as far as the code tells its values apart: `EAGAIN` and `EWOULDBLOCK` are one.
pub data Reason : Type 0 where
  interrupted : Reason
  would_block : Reason
  other : Reason

-- what a system call returns, and `errno` behind it
pub record Answer : Type 0 where
  pub count : ℤ
  pub errno : Reason

-- The kernel, with everything it knows in a state of type `W`: `write(fd, &val, 1)`,
-- `read(fd, buf, 64)`, `poll(fds, nfds, ms)` with `POLLIN` for each descriptor, which also says
-- which of them have it, and the monotonic clock in milliseconds.
pub record Kernel (W : Type 0) : Type 0 where
  pub write_one : ℤ → W → Answer × W
  pub read_some : ℤ → W → Answer × W
  pub poll_in : List ℤ → ℤ → W → Answer × List Bool × W
  pub now : W → ℕ

-- How a call ends: with a value, with an exception, or at the model's bound on its rounds.
pub data Effect {ℓ} (W : Type 0) (A : Type ℓ) : Type ℓ where
  returned : A → W → Effect W A
  thrown : W → Effect W A
  unfinished : Effect W A

-- `count == sizeof(val)`
abbrev pub is_one : ℤ → Bool
is_one (pos n) = n == 1
is_one (negsuc n) = false

-- `throw_if_invalid`
unfoldable pub guarded {ℓ} : {W : Type 0} {A : Type ℓ} → ℤ → W → Effect W A → Effect W A
guarded (pos fd) w rest = rest
guarded (negsuc n) w rest = thrown w

-- `timeout_ms`
unfoldable pub remaining_ms : ℤ → ℕ → ℕ → ℤ
remaining_ms (negsuc n) deadline now = negsuc 0
remaining_ms (pos n) deadline now = int_of (deadline - now)

abbrev pub deadline_of : ℤ → ℕ → ℕ
deadline_of (pos sec) now = now + sec * 1000
deadline_of (negsuc n) now = now - suc n * 1000

-- the loop of `Event::wait_for_one` over the events from index `i` on
unfoldable pub first_ready : ℕ → List Bool → Option ℕ
first_ready i [] = none
first_ready i (true ∷ revents) = some i
first_ready i (false ∷ revents) = first_ready (i + 1) revents

module _ {W : Type 0} (kernel : Kernel W) where
  -- the loop of `Event::set`
  unfoldable pub set_loop : ℕ → ℤ → W → Effect W (Unit {0})
  set_loop zero fd w = unfinished
  set_loop (suc n) fd w =
      let (answer, w') = kernel.write_one fd w in
      elim (is_one answer.count) [
        | true ↦ returned tt w'
        | false ↦ elim answer.errno [
          | interrupted ↦ set_loop n fd w'
          | would_block ↦ returned tt w'
          | other ↦ thrown w'
        ]
      ]

  -- `Event::set`
  unfoldable pub set : ℕ → ℤ → W → Effect W (Unit {0})
  set n fd w = guarded fd w (set_loop n fd w)

  -- the loop of `Event::clear`, with the total so far, an int in the source that the capacity of a
  -- pipe keeps in range
  unfoldable pub clear_loop : ℕ → ℤ → ℕ → W → Effect W ℕ
  clear_loop zero fd so_far w = unfinished
  clear_loop (suc n) fd so_far w =
      let (answer, w') = kernel.read_some fd w in
      elim answer.count [
        | pos zero ↦ returned so_far w'
        | pos (suc count) ↦ clear_loop n fd (so_far + suc count) w'
        | negsuc _ ↦ elim answer.errno [
          | interrupted ↦ clear_loop n fd so_far w'
          | would_block ↦ returned so_far w'
          | other ↦ thrown w'
        ]
      ]

  -- `Event::clear`
  unfoldable pub clear : ℕ → ℤ → W → Effect W ℕ
  clear n fd w = guarded fd w (clear_loop n fd 0 w)

  -- the loop of `poll_events`
  unfoldable pub poll_loop : ℕ → List ℤ → ℤ → ℕ → W → Effect W (ℕ × List Bool)
  poll_loop zero fds timeout deadline w = unfinished
  poll_loop (suc n) fds timeout deadline w =
      let (answer, revents, w') =
        kernel.poll_in fds (remaining_ms timeout deadline (kernel.now w)) w in
      elim answer.count [
        | pos ret ↦ returned (ret, revents) w'
        | negsuc _ ↦ elim answer.errno [
          | interrupted ↦ poll_loop n fds timeout deadline w'
          | would_block ↦ thrown w'
          | other ↦ thrown w'
        ]
      ]

  -- `poll_events`
  unfoldable pub poll_events : ℕ → List ℤ → ℤ → W → Effect W (ℕ × List Bool)
  poll_events n fds timeout w = poll_loop n fds timeout (deadline_of timeout (kernel.now w)) w

  -- `Event::wait`
  unfoldable pub wait : ℕ → ℤ → ℤ → W → Effect W (Unit {0})
  wait n fd timeout w = guarded fd w (elim (poll_events n (fd ∷ []) timeout w) [
    | returned (ret, revents) w' ↦ if ret == 0 then thrown w' else returned tt w'
    | thrown w' ↦ thrown w'
    | unfinished ↦ unfinished
  ])

  -- `Event::peek`
  unfoldable pub peek : ℕ → ℤ → W → Effect W Bool
  peek n fd w = guarded fd w (elim (poll_events n (fd ∷ []) (pos 0) w) [
    | returned (ret, revents) w' ↦ returned (ltb 0 ret) w'
    | thrown w' ↦ thrown w'
    | unfinished ↦ unfinished
  ])

  -- `Event::wait_for_one`
  unfoldable pub wait_for_one : ℕ → List ℤ → ℤ → W → Effect W ℕ
  wait_for_one n events timeout w = elim (poll_events n events timeout w) [
    | returned (ret, revents) w' ↦
        if ret == 0
        then thrown w'
        else elim (first_ready 0 revents) [ some i ↦ returned i w' | none ↦ thrown w' ]
    | thrown w' ↦ thrown w'
    | unfinished ↦ unfinished
  ]
