-- ===== src/Tests/Devices.antt =====
-- A driver of device memory that interrupts its first calls, and a buffer made and freed with it.
use msgq.Vision.Device.Ledger.{plus, taken, Holdings, Charged, Counted, Ledger}
use msgq.Vision.Device.Freeing.{Left, free_ion_after_allocate}
use msgq.Vision.Channels.{is_success}
use msgq.Vision.{allocate, VisionBuf, new_buf}
use msgq.Queue.{done}
use msgq.Vision.Device.{
  Outcome, Request, Ion, handle_eintr, ion_fd, ask, map_asserted, allocate_ion, free_handle,
  free_ion, alloc, share, take_in, invalidate_caches, clean_caches, give_back,
}
use msgq.Base.{
  ◌-◌, ◌<◌, ◌∙◌, subst, fun_ext, Bool, Option, ltb, ◌==◌, if◌then◌else◌, ltb→lt, ==_iff, zero, suc,
  ◌+◌, ◌≡◌, refl, ap, true, false, none, some, arith, ℤ, pos, negsuc, ℕ,
}

-- what is held, with the interruptions to come
abbrev Memory : Type 0
Memory = Holdings × ℕ

-- once less
abbrev minus : ℕ → (ℕ → ℕ) → ℕ → ℕ
minus x f y = if x == y then f y - 1 else f y

minus-plus : (x : ℕ) (f : ℕ → ℕ) → minus x (plus x f) ≡ f
minus-plus x f = fun_ext (λ y. back y (x == y))
  where
    back :
        (y : ℕ) (b : Bool)
        → if◌then◌else◌ {A = ℕ} b
            (if◌then◌else◌ {A = ℕ} b (f y + 1) (f y) - 1)
            (if◌then◌else◌ {A = ℕ} b (f y + 1) (f y))
          ≡ f y
    back y true = omega arith
    back y false = refl

plus-minus : (x : ℕ) (f : ℕ → ℕ) → 0 < f x → f ≡ plus x (minus x f)
plus-minus x f some_left = fun_ext (λ y. back y (x == y) refl)
  where
    back :
        (y : ℕ) (b : Bool)
        → (x == y) ≡ b
        → f y
          ≡ if◌then◌else◌ {A = ℕ} b
              (if◌then◌else◌ {A = ℕ} b (f y - 1) (f y) + 1)
              (if◌then◌else◌ {A = ℕ} b (f y - 1) (f y))
    back y true same =
        let here_too = subst (λ z. 0 < f z) ((==_iff x y).0 same) some_left in
        omega (arith, here_too)
    back y false other_one = refl

abbrev succeeded : ℕ → Holdings → Outcome × Memory
succeeded got h = (record { ret = pos 0; eintr = false; filled = got }, (h, 0))

abbrev given_back : ℕ → Holdings → Bool → Outcome × Memory
given_back k h false = (record { ret = negsuc 0; eintr = false; filled = 0 }, (h, 0))
given_back k h true = succeeded 0 (minus k h.0, h.1, h.2)

-- the driver gives out handle 7 and descriptor 9
abbrev granted : Request → Memory → Outcome × Memory
granted request (h, suc i) = (record { ret = negsuc 0; eintr = true; filled = 0 }, (h, i))
granted (alloc len unit) (h, zero) = succeeded 7 (plus 7 h.0, h.1, h.2)
granted (share k) (h, zero) = succeeded 9 (h.0, plus 9 h.1, h.2)
granted (take_in fd) (h, zero) = succeeded 7 (plus 7 h.0, h.1, h.2)
granted (invalidate_caches k len) (h, zero) = succeeded 0 h
granted (clean_caches k len) (h, zero) = succeeded 0 h
granted (give_back k) (h, zero) = given_back k h (ltb 0 (h.0 k))

abbrev closing : ℤ → Memory → Memory
closing (pos fd) (h, i) = ((h.0, minus fd h.1, h.2), i)
closing (negsuc n) w = w

abbrev driver : Ion Memory
driver = record {
  open_device = λ w. (pos 3, w);
  ioctl = λ device request w. granted request w;
  map_memory = λ fd len w. (true, ((w.0.0, w.0.1, plus len w.0.2), w.1));
  unmap_memory = λ len w. (pos 0, ((w.0.0, w.0.1, minus len w.0.2), w.1));
  close_file = λ fd w. (pos 0, closing fd w);
}

abbrev Fits : Request → Memory → Outcome × Memory → Type 0
Fits request w (a, v) = Counted (is_success a.ret) (Charged request a.filled w.0 v.0) w.0 v.0

given_back-Fits :
    (k : ℕ) (h : Holdings) (b : Bool)
    → ltb 0 (h.0 k) ≡ b
    → Fits (give_back k) (h, 0) (given_back k h b)
given_back-Fits k h true some_left =
    ap (λ f. (f, h.1, h.2)) (plus-minus k h.0 (ltb→lt 0 (h.0 k) some_left))
given_back-Fits k h false none_left = refl

granted-Fits : (request : Request) (w : Memory) → Fits request w (granted request w)
granted-Fits request (h, suc i) = refl
granted-Fits (alloc len unit) (h, zero) = refl
granted-Fits (share k) (h, zero) = refl
granted-Fits (take_in fd) (h, zero) = refl
granted-Fits (invalidate_caches k len) (h, zero) = refl
granted-Fits (clean_caches k len) (h, zero) = refl
granted-Fits (give_back k) (h, zero) = given_back-Fits k h (ltb 0 (h.0 k)) refl

taken_from : (x : ℕ) {f rest : ℕ → ℕ} → f ≡ plus x rest → minus x f ≡ rest
taken_from x {f} {rest} e = ap (λ g. minus x g) e ∙ minus-plus x rest

abbrev driver_ledger : Ledger driver
driver_ledger = record {
  held = λ w. w.0;
  opens = λ w. refl;
  asks = λ device request w. granted-Fits request w;
  maps = λ fd len w. refl;
  unmaps = λ len w rest e. ap (λ f. (w.0.0, w.0.1, f)) (taken_from len e);
  closes = λ fd w rest e. ap (λ f. (w.0.0, f, w.0.2)) (taken_from fd e);
}

abbrev device_buf : VisionBuf
device_buf = record new_buf { len = 100; mmap_len = 108; fd = pos 9; handle = 7 }

abbrev nothing_held : Holdings
nothing_held = (λ x. 0, λ x. 0, λ x. 0)

abbrev at_first : Option ℕ × Memory
at_first = (none, (nothing_held, 5))

abbrev with_buf : Memory
with_buf = (taken device_buf 9 nothing_held, 0)

abbrev without_buf : Memory
without_buf =
    let h = taken device_buf 9 nothing_held in ((minus 7 h.0, minus 9 h.1, minus 108 h.2), 0)

allocates : allocate_ion driver 100 new_buf at_first ≡ done (device_buf, some 3, with_buf)
unfolding allocate_ion ion_fd ask map_asserted handle_eintr allocate
allocates = refl

frees : free_ion driver device_buf (some 3, with_buf) ≡ done (pos 0, some 3, without_buf)
unfolding free_ion free_handle ion_fd handle_eintr
frees = refl

free_ion_after_allocate_example :
    (fd : ℕ) × (pos 9 ≡ pos fd)
    × (with_buf.0 ≡ taken device_buf fd nothing_held)
    × Left device_buf fd (pos 0) nothing_held without_buf.0
free_ion_after_allocate_example =
    free_ion_after_allocate driver driver_ledger 100 new_buf device_buf at_first (some 3, with_buf)
      allocates frees
