-- ===== src/Vision/Device/Ledger.antt =====
-- What the device buffers hold: the handles of the driver, the files and the mappings.
use msgq.Vision.{VisionBuf}
use msgq.Queue.{Run, done-injective, done, aborted}
use msgq.Polling.{is_minus_one}
use msgq.Vision.Channels.{is_success}
use msgq.Vision.Device.{
  ion_fd, map_asserted, repeats, ask, Outcome, Request, Ion, was_interrupted, handle_eintr, alloc,
  share, take_in, invalidate_caches, clean_caches, give_back,
}
use msgq.Base.{
  ◌==◌, sym, ◌∙◌, Option, none, some, refl, ap, subst, ◌&&◌, if◌then◌else◌, pos, negsuc, zero, suc,
  ◌+◌, ◌≡◌, Bool, true, false, ℤ, ℕ,
}

-- How often each handle, each descriptor of a buffer, and a mapping of each length is held.
abbrev pub Holdings : Type 0
Holdings = (ℕ → ℕ) × (ℕ → ℕ) × (ℕ → ℕ)

-- once more
abbrev pub plus : ℕ → (ℕ → ℕ) → ℕ → ℕ
plus x f y = if x == y then f y + 1 else f y

-- with the handle, the descriptor and the mapping of a buffer as well
abbrev pub taken : VisionBuf → ℕ → Holdings → Holdings
taken buf fd h = (plus buf.handle h.0, plus fd h.1, plus buf.mmap_len h.2)

-- What a request that succeeds does to what is held, before and after it, with what it fills in.
abbrev pub Charged : Request → ℕ → Holdings → Holdings → Type 0
Charged (alloc len unit) got before after = after ≡ (plus got before.0, before.1, before.2)
Charged (share handle) got before after = after ≡ (before.0, plus got before.1, before.2)
Charged (take_in fd) got before after = after ≡ (plus got before.0, before.1, before.2)
Charged (invalidate_caches handle len) got before after = after ≡ before
Charged (clean_caches handle len) got before after = after ≡ before
Charged (give_back handle) got before after = before ≡ (plus handle after.0, after.1, after.2)

-- a call that changes what is held if it succeeds, and nothing if it fails
abbrev pub Counted : Bool → Type 0 → Holdings → Holdings → Type 0
Counted true change before after = change
Counted false change before after = after ≡ before

-- What the driver and the kernel document of their calls, the file of the device left aside. On
-- Linux `close` gives up an open descriptor whatever it returns.
pub record Ledger {W : Type 0} (ion : Ion W) : Type 0 where
  pub held : W → Holdings
  pub opens : (w : W) → held (ion.open_device w).1 ≡ held w
  pub asks :
      (device : ℕ) (request : Request) (w : W)
      → let (a, v) = ion.ioctl device request w in
        Counted (is_success a.ret) (Charged request a.filled (held w) (held v)) (held w) (held v)
  pub maps :
      (fd len : ℕ) (w : W)
      → let (there, v) = ion.map_memory fd len w in
        Counted there (held v ≡ ((held w).0, (held w).1, plus len (held w).2)) (held w) (held v)
  pub unmaps :
      (len : ℕ) (w : W) (rest : ℕ → ℕ)
      → (held w).2 ≡ plus len rest
      → let (err, v) = ion.unmap_memory len w in
        Counted (is_success err) (held v ≡ ((held w).0, (held w).1, rest)) (held w) (held v)
  pub closes :
      (fd : ℕ) (w : W) (rest : ℕ → ℕ)
      → (held w).1 ≡ plus fd rest
      → held (ion.close_file (pos fd) w).1 ≡ ((held w).0, rest, (held w).2)

minus_one_fails : (ret : ℤ) (b : Bool) → (is_minus_one ret && b) ≡ true → is_success ret ≡ false
minus_one_fails (pos zero) b e = cc
minus_one_fails (pos (suc n)) b e = refl
minus_one_fails (negsuc n) b e = refl

module _ {W : Type 0} (ion : Ion W) (ledger : Ledger ion) where
  -- how a request ends
  abbrev pub Answered : Request → W → Outcome × W → Type 0
  Answered request w (a, v) =
      Counted (is_success a.ret) (Charged request a.filled (ledger.held w) (ledger.held v))
        (ledger.held w) (ledger.held v)

  retry_step :
      (b : Bool) (request : Request) (w : W) (first retried : Outcome × W)
      → (b ≡ false → Answered request w first)
      → (b ≡ true → Answered request w retried)
      → Answered request w (elim b [ true ↦ retried | false ↦ first ])
  retry_step true request w first retried f t = t refl
  retry_step false request w first retried f t = f refl

  pub handle_eintr-Answered :
      (device : ℕ) (request : Request) (n : ℕ) (w : W)
      → Answered request w (handle_eintr n (ion.ioctl device request) w)
  unfolding handle_eintr
  handle_eintr-Answered device request zero w = ledger.asks device request w
  handle_eintr-Answered device request (suc n) w =
      let (a, v) = ion.ioctl device request w in
      retry_step (was_interrupted a) request w (a, v) (handle_eintr n (ion.ioctl device request) v)
        (λ f. ledger.asks device request w)
        (λ t.
          go (handle_eintr n (ion.ioctl device request) v) (kept t)
            (handle_eintr-Answered device request n v))
    where
      kept :
          was_interrupted (ion.ioctl device request w).0 ≡ true
          → ledger.held (ion.ioctl device request w).1 ≡ ledger.held w
      kept t =
          subst
            (λ b.
              Counted b
                (Charged request (ion.ioctl device request w).0.filled (ledger.held w)
                  (ledger.held (ion.ioctl device request w).1))
                (ledger.held w) (ledger.held (ion.ioctl device request w).1))
            (minus_one_fails (ion.ioctl device request w).0.ret (ion.ioctl device request w).0.eintr
              t)
            (ledger.asks device request w)

      go :
          {v : W} (x : Outcome × W)
          → ledger.held v ≡ ledger.held w
          → Answered request v x
          → Answered request w x
      go x same p =
          subst
            (λ h.
              Counted (is_success x.0.ret) (Charged request x.0.filled h (ledger.held x.1)) h
                (ledger.held x.1))
            same p

  pub ask-Charged :
      (device : ℕ) (request : Request) (w : W) {out : ℕ} {v : W}
      → ask ion device request w ≡ done (out, v)
      → Charged request out (ledger.held w) (ledger.held v)
  unfolding ask
  ask-Charged device request w e =
      let x = handle_eintr repeats (ion.ioctl device request) w in
      pick (is_success x.0.ret) request w x.1 x.0.filled
        (handle_eintr-Answered device request repeats w) e
    where
      pick :
          (b : Bool) (request : Request) (w v : W) (r : ℕ) {o : ℕ} {u : W}
          → Counted b
              (Charged request r (ledger.held w) (ledger.held v))
              (ledger.held w)
              (ledger.held v)
          → if◌then◌else◌ {A = Run (ℕ × W)} b (done (r, v)) aborted ≡ done (o, u)
          → Charged request o (ledger.held w) (ledger.held u)
      pick true request w v r p e =
          subst (λ (x : ℕ × W). Charged request x.0 (ledger.held w) (ledger.held x.1))
            (done-injective e) p
      pick false request w v r p e = cc

  pub ion_fd-kept :
      (s : Option ℕ × W) {device : ℕ} {v : W}
      → ion_fd ion s ≡ done (device, v)
      → ledger.held v ≡ ledger.held s.1
  unfolding ion_fd
  ion_fd-kept (some fd, w) e = ap (λ x. ledger.held x.1) (sym (done-injective e))
  ion_fd-kept (none, w) e = pick (ion.open_device w).0 e
    where
      pick :
          (fd : ℤ) {device : ℕ} {v : W}
          → elim fd as (λ _. Run (ℕ × W)) [
            | pos found ↦ done (found, (ion.open_device w).1)
            | negsuc _ ↦ aborted
          ]
            ≡ done (device, v)
          → ledger.held v ≡ ledger.held w
      pick (pos found) f = ap (λ x. ledger.held x.1) (sym (done-injective f)) ∙ ledger.opens w
      pick (negsuc n) f = cc

  pub map_asserted-held :
      (fd len : ℕ) (w : W) {v : W}
      → map_asserted ion fd len w ≡ done v
      → ledger.held v ≡ ((ledger.held w).0, (ledger.held w).1, plus len (ledger.held w).2)
  unfolding map_asserted
  map_asserted-held fd len w e =
      pick (ion.map_memory fd len w).0 (ion.map_memory fd len w).1 _ (ledger.maps fd len w) e
    where
      pick :
          (b : Bool) (v : W) {u : W} (change : Holdings)
          → Counted b (ledger.held v ≡ change) (ledger.held w) (ledger.held v)
          → if◌then◌else◌ {A = Run W} b (done v) aborted ≡ done u
          → ledger.held u ≡ change
      pick true v change p e = ap ledger.held (sym (done-injective e)) ∙ p
      pick false v change p e = cc
