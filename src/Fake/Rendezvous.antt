-- ===== src/Fake/Rendezvous.antt =====
-- The rendezvous before a receive in the fake mode of `SubSocket` of msgq/ipc.cc: that it comes to
-- an end once the test releases the socket, and that the receive then is the ordinary one.
use msgq.Subscriber.{Os}
use msgq.Sockets.{SubSocket, receive}
use msgq.Queue.{Msg}
use msgq.Polling.{Process, World}
use msgq.Fake.Handle.{EventState, Files}
use msgq.Fake.Sockets.{
  then_do, FakeMode, open_fake_fifos, await_release, receive_in_mode, rendezvous,
}
use msgq.Events.Choice.{not-below}
use msgq.Events.Drain.{set_marks, clear_drains, Pipe}
use msgq.Events.{
  is_one, guarded, set, poll_events, wait, Reason, Answer, Kernel, Effect, remaining_ms, set_loop,
  poll_loop, interrupted, would_block, other, returned, thrown,
}
use msgq.Base.{
  some, ==_of_ne, ◌-◌, ◌∙◌, subst, true, false, zero, suc, ◌+◌, ◌≤◌, ◌<◌, ◌≡◌, refl, Bool, List, [],
  ◌∷◌, arith, ℤ, pos, negsuc, ℕ,
}

-- How a poll of one pipe without a timeout goes, from `level` bytes in it and `patience`
-- interruptions to come: it is interrupted, or there is a byte in it, which may have come meanwhile.
pub data Waited (level patience : ℕ) : Answer → ℕ → ℕ → Type 0 where
  wait_interrupted :
      {remains : ℕ}
      → remains < patience
      → Waited level patience (record { count = negsuc 0; errno = interrupted }) level remains
  released :
      {errno : Reason} {count got remains : ℕ}
      → 0 < count
      → 0 < got
      → got ≤ level + 1
      → remains ≤ patience
      → Waited level patience (record { count = pos count; errno = errno }) got remains

-- What the kernel documents of the two pipes of a socket, `called` and `release`, when the test
-- answers a byte in `called`, and nothing before it, by one byte at most to `release`, and uses
-- neither pipe else until then.
pub record Pipes {W : Type 0} (kernel : Kernel W) (called release : ℕ) : Type 0 where
  pub first : Pipe kernel (pos called)
  pub second : Pipe kernel (pos release)
  pub apart :
      (w : W)
      → let v = (kernel.write_one (pos called) w).1 in
        (second.level v ≡ second.level w) × (second.patience v ≤ second.patience w)
  pub waits :
      (w : W)
      → 0 < first.level w
      → let (result, revents, v) = kernel.poll_in (pos release ∷ []) (negsuc 0) w in
        Waited (second.level w) (second.patience w) result (second.level v) (second.patience v)
  pub stays :
      (w : W)
      → let (result, revents, v) = kernel.poll_in (pos release ∷ []) (negsuc 0) w in
        result.count ≡ negsuc 0 → first.level v ≡ first.level w

returned-same : {W : Type 0} {v w : W} → returned (tt {0}) v ≡ returned tt w → v ≡ w
returned-same e = cc

set_step-keeps :
    {W : Type 0} (P : W → Type 0) (b : Bool) (errno : Reason) {retried : Effect W (Unit {0})}
    {v w : W}
    → P v
    → (retried ≡ returned tt w → P w)
    → elim b [
      | true ↦ returned tt v
      | false ↦ elim errno [
        | interrupted ↦ retried
        | would_block ↦ returned tt v
        | other ↦ thrown v
      ]
    ]
      ≡ returned tt w
    → P w
set_step-keeps P true errno p rest e = subst P (returned-same e) p
set_step-keeps P false interrupted p rest e = rest e
set_step-keeps P false would_block p rest e = subst P (returned-same e) p
set_step-keeps P false other p rest e = cc

-- what the loop of `Event::set` leaves of a property that each write keeps
set_loop-keeps :
    {W : Type 0} (kernel : Kernel W) (fd : ℤ) (P : W → Type 0)
    → ((w : W) → P w → P (kernel.write_one fd w).1)
    → (n : ℕ) (w : W) {v : W} → P w
    → set_loop kernel n fd w ≡ returned tt v
    → P v
unfolding set_loop
set_loop-keeps kernel fd P keep zero w p e = cc
set_loop-keeps kernel fd P keep (suc n) w p e =
    let (result, v) = kernel.write_one fd w in
    set_step-keeps P (is_one result.count) result.errno (keep w p)
      (λ q. set_loop-keeps kernel fd P keep n v (keep w p) q) e

set-keeps :
    {W : Type 0} (kernel : Kernel W) (fd : ℕ) (P : W → Type 0)
    → ((w : W) → P w → P (kernel.write_one (pos fd) w).1)
    → (n : ℕ) (w : W) {v : W} → P w
    → set kernel n (pos fd) w ≡ returned tt v
    → P v
unfolding set guarded
set-keeps kernel fd P keep n w p e = set_loop-keeps kernel (pos fd) P keep n w p e

module _ {W : Type 0} (kernel : Kernel W) (called release : ℕ)
    (pipes : Pipes kernel called release) where
  -- the end of a wait that found a byte, at most `most` with the interruptions to come
  abbrev IsReleased : ℕ → Effect W (ℕ × List Bool) → Type 0
  IsReleased most x =
      (ret : ℕ) × (revents : List Bool) × (v : W) × (x ≡ returned (ret, revents) v)
      × (0 < ret)
      × (pipes.second.level v + pipes.second.patience v ≤ most)

  poll_step :
      (n deadline : ℕ) (w : W) (result : Answer) (revents : List Bool) (v : W) {l p : ℕ}
      → pipes.second.level v ≡ l
      → pipes.second.patience v ≡ p
      → Waited (pipes.second.level w) (pipes.second.patience w) result l p
      → (result.count ≡ negsuc 0
          → pipes.second.level v ≡ pipes.second.level w
          → pipes.second.patience v < pipes.second.patience w
          → IsReleased
              (pipes.second.level w + 1 + pipes.second.patience w)
              (poll_loop kernel n (pos release ∷ []) (negsuc 0) deadline v))
      → IsReleased (pipes.second.level w + 1 + pipes.second.patience w) (elim result.count [
        | pos ret ↦ returned (ret, revents) v
        | negsuc _ ↦ elim result.errno [
          | interrupted ↦ poll_loop kernel n (pos release ∷ []) (negsuc 0) deadline v
          | would_block ↦ thrown v
          | other ↦ thrown v
        ]
      ])
  poll_step n deadline w result revents v at remains (wait_interrupted lt) rest =
      rest refl at (omega (arith, remains, lt))
  poll_step n deadline w result revents v at remains
        (released {count = c} some_ready some_byte most le) rest =
      (c, revents, v, refl, some_ready, omega (arith, at, remains, most, le))

  poll_loop-IsReleased :
      (n deadline : ℕ) (w : W)
      → 0 < pipes.first.level w
      → pipes.second.patience w < n
      → IsReleased
          (pipes.second.level w + 1 + pipes.second.patience w)
          (poll_loop kernel n (pos release ∷ []) (negsuc 0) deadline w)
  unfolding poll_loop remaining_ms
  poll_loop-IsReleased zero deadline w marked h = absurd (not-below _ h)
  poll_loop-IsReleased (suc n) deadline w marked h =
      let (result, revents, v) = kernel.poll_in (pos release ∷ []) (negsuc 0) w in
      poll_step n deadline w result revents v refl refl (pipes.waits w marked) (λ stopped same lt.
        let (ret, flags, u, e, some_ready, le) =
          poll_loop-IsReleased n deadline v (omega (arith, marked, pipes.stays w stopped))
            (omega (arith, h, lt)) in
        (ret, flags, u, e, some_ready, omega (arith, same, lt, le)))

  wait_released :
      (n : ℕ) (w : W)
      → 0 < pipes.first.level w
      → pipes.second.patience w < n
      → (v : W) × (wait kernel n (pos release) (negsuc 0) w ≡ returned tt v)
        × (pipes.second.level v + pipes.second.patience v
            ≤ pipes.second.level w + 1 + pipes.second.patience w)
  unfolding wait guarded poll_events
  wait_released n w marked h =
      let (ret, flags, v, e, some_ready, le) =
        poll_loop-IsReleased n (kernel.now w - 1000) w marked h in
      (v, rw (e, ==_of_ne ret 0 (λ z. not-below 0 (subst (λ r. 0 < r) z some_ready))) refl, le)

  -- The rendezvous ends and leaves `release` drained.
  abbrev Rendezvoused : Effect W ℕ → Type 0
  Rendezvoused x = (bytes : ℕ) × (v : W) × (x ≡ returned bytes v) × (pipes.second.level v ≡ 0)

  rendezvous_ends :
      (n : ℕ) (w : W)
      → pipes.first.patience w < n
      → pipes.second.level w + 1 + pipes.second.patience w < n
      → Rendezvoused (rendezvous kernel n (pos called) (pos release) w)
  unfolding rendezvous
  rendezvous_ends n w h k =
      let (u, marked, some_byte) = set_marks kernel called pipes.first n w h in
      let (same, less) =
        set-keeps kernel called
          (λ v.
            (pipes.second.level v ≡ pipes.second.level w)
            × (pipes.second.patience v ≤ pipes.second.patience w))
          (λ v p. ((pipes.apart v).0 ∙ p.0, omega (arith, p.1, (pipes.apart v).1))) n w
          (refl, omega arith) marked in
      let (v, waited, le) = wait_released n u some_byte (omega (arith, less, k)) in
      let (z, cleared, drained) =
        clear_drains kernel release pipes.second n v (omega (arith, same, less, le, k)) in
      (pipes.second.level v, z, rw (marked, waited, cleared) refl, drained)

  await_opened :
      (n : ℕ) (files : Files) (now state : EventState) (f : FakeMode) (w : W)
      → f.state ≡ some state
      → now.enabled ≡ true
      → await_release kernel files n now f w ≡ (
          let (acts, g) = open_fake_fifos files now f in
          (
            acts,
            g,
            then_do (rendezvous kernel n g.recv_called g.recv_ready w) (λ v. returned tt v),
          ))
  unfolding await_release
  await_opened n files now state f w there on = rw (there, on) refl

  -- A `SubSocket::receive` in the fake mode, its state mapped and enabled and both pipes open by
  -- then, of a test that answers a byte in the first pipe, and nothing before it, by releasing
  -- the receive, with one byte at most to the second pipe: the receive returns, the second pipe
  -- empty, what a receive outside the fake mode returns. Nobody else uses the two pipes, and the
  -- rounds given exceed the bytes in the second, the interruptions to come, and one more.
  pub receive_released :
      (n : ℕ) (files : Files) (now state : EventState) (f : FakeMode) (os : Os) (worlds : ℕ → World)
      (sleeps rounds : ℕ) (non_blocking : Bool) (socket : SubSocket) (msg : Msg) (p : Process)
      (w : W)
      → f.state ≡ some state
      → now.enabled ≡ true
      → (open_fake_fifos files now f).1.recv_called ≡ pos called
      → (open_fake_fifos files now f).1.recv_ready ≡ pos release
      → pipes.first.patience w < n
      → pipes.second.level w + 1 + pipes.second.patience w < n
      → (v : W) × (receive_in_mode kernel files n now f os worlds sleeps rounds non_blocking socket
            msg p w
          ≡ (
            (open_fake_fifos files now f).0,
            (open_fake_fifos files now f).1,
            returned (receive os worlds sleeps rounds non_blocking socket msg p) v,
          ))
        × (pipes.second.level v ≡ 0)
  unfolding receive_in_mode
  receive_released n files now state f os worlds sleeps rounds non_blocking socket msg p w there on
        open_called open_release h k =
      let (bytes, v, met, drained) = rendezvous_ends n w h k in
      (
        v,
        rw (await_opened n files now state f w there on, open_called, open_release, met) refl,
        drained,
      )
