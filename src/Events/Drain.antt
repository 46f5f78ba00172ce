-- ===== src/Events/Drain.antt =====
-- That `Event::set` and `Event::clear` of msgq/event.cc return, and what they leave in the pipe.
use msgq.Events.Choice.{not-below}
use msgq.Events.{
  Effect, is_one, guarded, set, clear_loop, clear, other, thrown, Reason, Answer, Kernel, set_loop,
  interrupted, would_block, returned,
}
use msgq.Base.{
  ap, subst, true, false, arith, zero, suc, ◌+◌, ◌≤◌, ◌<◌, ◌≡◌, refl, ℤ, pos, negsuc, ℕ,
}

-- How a write of one byte to a pipe goes, from `level` bytes in it and `patience` interruptions to
-- come: it is written, it is interrupted, or the pipe is full.
pub data Wrote (level patience : ℕ) : Answer → ℕ → ℕ → Type 0 where
  byte_written :
      {errno : Reason} {left : ℕ}
      → left ≤ patience
      → Wrote level patience (record { count = pos 1; errno = errno }) (level + 1) left
  write_interrupted :
      {left : ℕ}
      → left < patience
      → Wrote level patience (record { count = negsuc 0; errno = interrupted }) level left
  pipe_full :
      {left : ℕ}
      → 0 < level
      → Wrote level patience (record { count = negsuc 0; errno = would_block }) level left

-- How a read of up to 64 bytes goes.
pub data WasRead (level patience : ℕ) : Answer → ℕ → ℕ → Type 0 where
  bytes_read :
      {errno : Reason} {left : ℕ} (count rest : ℕ)
      → level ≡ suc count + rest
      → left ≤ patience
      → WasRead level patience (record { count = pos (suc count); errno = errno }) rest left
  read_interrupted :
      {left : ℕ}
      → left < patience
      → WasRead level patience (record { count = negsuc 0; errno = interrupted }) level left
  pipe_empty :
      {left : ℕ}
      → level ≡ 0
      → WasRead level patience (record { count = negsuc 0; errno = would_block }) 0 left

-- What the kernel documents of a pipe opened with `O_RDWR | O_NONBLOCK` that nobody else uses
-- meanwhile, if signals interrupt only a number of calls known to the state.
pub record Pipe {W : Type 0} (kernel : Kernel W) (fd : ℤ) : Type 0 where
  pub level : W → ℕ
  pub patience : W → ℕ
  pub writes :
      (w : W)
      → let (answer, w') = kernel.write_one fd w in
        Wrote (level w) (patience w) answer (level w') (patience w')
  pub reads :
      (w : W)
      → let (answer, w') = kernel.read_some fd w in
        WasRead (level w) (patience w) answer (level w') (patience w')

module _ {W : Type 0} (kernel : Kernel W) (fd : ℕ) (pipe : Pipe kernel (pos fd)) where
  -- the end of a call that set the event
  abbrev Marked : Effect W (Unit {0}) → Type 0
  Marked x = (w' : W) × (x ≡ returned tt w') × (0 < pipe.level w')

  set_step :
      (n : ℕ) (w v : W) (answer : Answer) {l p : ℕ}
      → pipe.level v ≡ l
      → pipe.patience v ≡ p
      → Wrote (pipe.level w) (pipe.patience w) answer l p
      → (pipe.patience v < pipe.patience w → Marked (set_loop kernel n (pos fd) v))
      → Marked (elim (is_one answer.count) [
        | true ↦ returned tt v
        | false ↦ elim answer.errno [
          | interrupted ↦ set_loop kernel n (pos fd) v
          | would_block ↦ returned tt v
          | other ↦ thrown v
        ]
      ])
  set_step n w v answer at left (byte_written le) rest = (v, refl, omega (arith, at))
  set_step n w v answer at left (write_interrupted lt) rest = rest (omega (arith, left, lt))
  set_step n w v answer at left (pipe_full full) rest = (v, refl, omega (arith, at, full))

  set_loop_returns : (n : ℕ) (w : W) → pipe.patience w < n → Marked (set_loop kernel n (pos fd) w)
  unfolding set_loop
  set_loop_returns zero w h = absurd (not-below _ h)
  set_loop_returns (suc n) w h =
      let (answer, v) = kernel.write_one (pos fd) w in
      set_step n w v answer refl refl (pipe.writes w)
        (λ lt. set_loop_returns n v (omega (arith, h, lt)))

  -- the end of a call that took `count` bytes and left none
  abbrev IsDrained : ℕ → Effect W ℕ → Type 0
  IsDrained count x = (w' : W) × (x ≡ returned count w') × (pipe.level w' ≡ 0)

  clear_step :
      (n so_far : ℕ) (w v : W) (answer : Answer) {l p : ℕ}
      → pipe.level v ≡ l
      → pipe.patience v ≡ p
      → WasRead (pipe.level w) (pipe.patience w) answer l p
      → ((taken : ℕ)
          → taken + pipe.level v ≡ pipe.level w
          → pipe.level v + pipe.patience v < pipe.level w + pipe.patience w
          → IsDrained (so_far + pipe.level w) (clear_loop kernel n (pos fd) (so_far + taken) v))
      → IsDrained (so_far + pipe.level w) (elim answer.count [
        | pos zero ↦ returned so_far v
        | pos (suc count) ↦ clear_loop kernel n (pos fd) (so_far + suc count) v
        | negsuc _ ↦ elim answer.errno [
          | interrupted ↦ clear_loop kernel n (pos fd) so_far v
          | would_block ↦ returned so_far v
          | other ↦ thrown v
        ]
      ])
  clear_step n so_far w v answer at left (bytes_read count r eq le) rest =
      rest (suc count) (omega (arith, at, eq)) (omega (arith, at, eq, left, le))
  clear_step n so_far w v answer at left (read_interrupted lt) rest =
      subst (λ s. IsDrained (so_far + pipe.level w) (clear_loop kernel n (pos fd) s v))
        (omega arith) (rest 0 (omega (arith, at)) (omega (arith, at, left, lt)))
  clear_step n so_far w v answer at left (pipe_empty empty) rest =
      (v, ap (λ s. returned s v) (omega (arith, empty)), omega (arith, at))

  clear_loop_drains :
      (n so_far : ℕ) (w : W)
      → pipe.level w + pipe.patience w < n
      → IsDrained (so_far + pipe.level w) (clear_loop kernel n (pos fd) so_far w)
  unfolding clear_loop
  clear_loop_drains zero so_far w h = absurd (not-below _ h)
  clear_loop_drains (suc n) so_far w h =
      let (answer, v) = kernel.read_some (pos fd) w in
      clear_step n so_far w v answer refl refl (pipe.reads w) (λ taken eq lt.
        subst (λ s. IsDrained s (clear_loop kernel n (pos fd) (so_far + taken) v))
          (omega (arith, eq)) (clear_loop_drains n (so_far + taken) v (omega (arith, h, lt))))

  -- On a pipe that nobody else uses meanwhile, `Event::set` returns and leaves a byte in the pipe.
  -- Interrupted calls are repeated: the rounds given exceed the interruptions to come.
  pub set_marks :
      (n : ℕ) (w : W)
      → pipe.patience w < n
      → (v : W) × (set kernel n (pos fd) w ≡ returned tt v) × (0 < pipe.level v)
  unfolding set guarded
  set_marks n w h = set_loop_returns n w h

  -- On a pipe that nobody else uses meanwhile, `Event::clear` returns the number of bytes in the
  -- pipe and leaves none. The rounds given exceed the bytes and the interruptions to come.
  pub clear_drains :
      (n : ℕ) (w : W)
      → pipe.level w + pipe.patience w < n
      → (v : W) × (clear kernel n (pos fd) w ≡ returned (pipe.level w) v) × (pipe.level v ≡ 0)
  unfolding clear guarded
  clear_drains n w h =
      subst (λ s. IsDrained s (clear_loop kernel n (pos fd) 0 w)) (omega arith)
        (clear_loop_drains n 0 w h)
