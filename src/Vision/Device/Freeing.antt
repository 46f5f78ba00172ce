-- ===== src/Vision/Device/Freeing.antt =====
-- What freeing a buffer of msgq/visionipc/visionbuf_ion.cc leaves of what its allocation took.
use msgq.Vision.Device.Taking.{allocate_ion-held, import_ion-held}
use msgq.Vision.Device.Ledger.{
  plus, taken, Counted, handle_eintr-Answered, ion_fd-kept, Holdings, Ledger,
}
use msgq.Vision.Device.{
  import_ion, allocate_ion, free_handle, Ion, handle_eintr, repeats, ion_fd, free_ion, give_back,
}
use msgq.Vision.Channels.{is_success}
use msgq.Vision.{VisionBuf}
use msgq.Queue.{Run, done-injective, >>=-done, done}
use msgq.Base.{
  fun_ext, ◌==◌, if◌then◌else◌, pos, subst, inl, inr, Bool, Bool-cases, ◌∙◌, ◌+◌, ◌≡◌, refl, sym,
  ap, ◌⊎◌, true, false, Option, arith, ℤ, ℕ,
}

-- What is held after a free that returned `rc`, when what was held before the buffer was made is
-- `h`: nothing more after a success; after a failure all of the buffer, or its handle.
abbrev pub Left : VisionBuf → ℕ → ℤ → Holdings → Holdings → Type 0
Left buf fd rc h after =
    ((is_success rc ≡ true) × (after ≡ h))
    ⊎ ((is_success rc ≡ false)
        × ((after ≡ taken buf fd h) ⊎ (after ≡ (plus buf.handle h.0, h.1, h.2))))

plus-injective : (x : ℕ) (f g : ℕ → ℕ) → plus x f ≡ plus x g → f ≡ g
plus-injective x f g e = fun_ext (λ y. same y (x == y) (ap (λ h. h y) e))
  where
    same :
        (y : ℕ) (b : Bool) → (if b then f y + 1 else f y) ≡ (if b then g y + 1 else g y) → f y ≡ g y
    same y true p = omega (arith, p)
    same y false p = p

-- two views of what was held before the handle was given back tell what is held after it
lost_handle :
    (handle : ℕ) {w : Holdings} (a h : Holdings)
    → w ≡ (plus handle h.0, h.1, h.2)
    → w ≡ (plus handle a.0, a.1, a.2)
    → a ≡ h
lost_handle handle a h p q =
    same_holdings (plus-injective handle a.0 h.0 (ap (λ t. t.0) (sym q ∙ p)))
      (ap (λ t. t.1) (sym q ∙ p)) (ap (λ t. t.2) (sym q ∙ p))
  where
    same_holdings : {a b : Holdings} → a.0 ≡ b.0 → a.1 ≡ b.1 → a.2 ≡ b.2 → a ≡ b
    same_holdings p q r = cc

-- a call that returns its failure or goes on
failed_or_on :
    {A : Type 0} (b : Bool) (x : A) (rest : Run A) {y : A}
    → elim b as (λ _. Run A) [ false ↦ done x | true ↦ rest ] ≡ done y
    → ((b ≡ false) × (x ≡ y)) ⊎ ((b ≡ true) × (rest ≡ done y))
failed_or_on true x rest e = inr (refl, e)
failed_or_on false x rest e = inl (refl, done-injective e)

Counted-true :
    {b : Bool} {change : Type 0} (v w : Holdings) → b ≡ true → Counted b change v w → change
Counted-true {change} v w e p = subst (λ b. Counted b change v w) e p

Counted-false :
    {b : Bool} (change : Type 0) {v w : Holdings} → b ≡ false → Counted b change v w → w ≡ v
Counted-false change {v} {w} e p = subst (λ b. Counted b change v w) e p

module _ {W : Type 0} (ion : Ion W) (ledger : Ledger ion) where
  free_handle-Left :
      (buf : VisionBuf) (fd : ℕ) (known : Option ℕ) (w : W) (h : Holdings) {y : ℤ × Option ℕ × W}
      → ledger.held w ≡ (plus buf.handle h.0, h.1, h.2)
      → free_handle ion buf.handle (known, w) ≡ done y
      → Left buf fd y.0 h (ledger.held y.2)
  unfolding free_handle
  free_handle-Left buf fd known w h before e =
      let ((device, u), e0, r0) = >>=-done (ion_fd ion (known, w)) _ e in
      let (a, x) = handle_eintr repeats (ion.ioctl device (give_back buf.handle)) u in
      let answered = handle_eintr-Answered ion ledger device (give_back buf.handle) repeats u in
      let first_held = ion_fd-kept ion ledger (known, w) e0 ∙ before in
      subst (λ y. Left buf fd y.0 h (ledger.held y.2)) (done-injective r0)
        (elim (Bool-cases (is_success a.ret)) [
          | inl good ↦ inl (
            good,
            lost_handle buf.handle (ledger.held x) h first_held (Counted-true _ _ good answered),
          )
          | inr bad ↦ inr (bad, inr (Counted-false _ bad answered ∙ first_held))
        ])

  -- a call of `close`, given the descriptor, leaves the handle
  closed_held :
      (buf : VisionBuf) (fd : ℕ) (w : W) (h : Holdings)
      → buf.fd ≡ pos fd
      → ledger.held w ≡ (plus buf.handle h.0, plus fd h.1, h.2)
      → ledger.held (ion.close_file buf.fd w).1 ≡ (plus buf.handle h.0, h.1, h.2)
  closed_held buf fd w h this before =
      subst (λ z. ledger.held (ion.close_file z w).1 ≡ (plus buf.handle h.0, h.1, h.2)) (sym this)
        (joined_up before (ledger.closes fd w h.1 (ap (λ t. t.1) before)))
    where
      joined_up :
          {a b : Holdings} {x y z r : ℕ → ℕ} → a ≡ (x, y, z) → b ≡ (a.0, r, a.2) → b ≡ (x, r, z)
      joined_up p q = cc

  free_ion-Left :
      (buf : VisionBuf) (fd : ℕ) (known : Option ℕ) (w : W) (h : Holdings) {y : ℤ × Option ℕ × W}
      → buf.fd ≡ pos fd
      → ledger.held w ≡ taken buf fd h
      → free_ion ion buf (known, w) ≡ done y
      → Left buf fd y.0 h (ledger.held y.2)
  unfolding free_ion
  free_ion-Left buf fd known w h this before e =
      let (err, w1) = ion.unmap_memory buf.mmap_len w in
      let (failure, w2) = ion.close_file buf.fd w1 in
      let unmapped_one = ledger.unmaps buf.mmap_len w h.2 (ap (λ t. t.2) before) in
      elim (failed_or_on (is_success err) (err, known, w1) _ e) [
        | inl (bad, same) ↦
            subst (λ y. Left buf fd y.0 h (ledger.held y.2)) same
              (inr (bad, inl (Counted-false _ bad unmapped_one ∙ before)))
        | inr (good, rest) ↦
            let first_held =
              closed_held buf fd w1 h this (without before (Counted-true _ _ good unmapped_one)) in
            elim (failed_or_on (is_success failure) (failure, known, w2) _ rest) [
              | inl (bad, same) ↦
                  subst (λ y. Left buf fd y.0 h (ledger.held y.2)) same (inr (bad, inr first_held))
              | inr (closed_too, more) ↦ free_handle-Left buf fd known w2 h first_held more
            ]
      ]
    where
      without :
          {a b : Holdings} {x y z r : ℕ → ℕ} → a ≡ (x, y, z) → b ≡ (a.0, a.1, r) → b ≡ (x, y, r)
      without p q = cc

  -- Allocating a buffer in device memory and freeing it, which both return: the allocation takes
  -- a handle, a descriptor and a mapping, those that the buffer has; a free that returns 0 leaves
  -- what is held as it was before; one that returns anything else leaves either all three or the
  -- handle, also if calls of the driver were interrupted and repeated. A handle and a descriptor
  -- are told by their number, a mapping by its length.
  pub free_ion_after_allocate :
      (size : ℕ) (new buf : VisionBuf) (s t : Option ℕ × W) {rc : ℤ} {known : Option ℕ} {v : W}
      → allocate_ion ion size new s ≡ done (buf, t.0, t.1)
      → free_ion ion buf t ≡ done (rc, known, v)
      → (fd : ℕ) × (buf.fd ≡ pos fd)
        × (ledger.held t.1 ≡ taken buf fd (ledger.held s.1))
        × Left buf fd rc (ledger.held s.1) (ledger.held v)
  free_ion_after_allocate size new buf s t made freed =
      let (fd, this, holds) = allocate_ion-held ion ledger size new s made in
      (fd, this, holds, free_ion-Left buf fd t.0 t.1 (ledger.held s.1) this holds freed)

  -- An import takes over the descriptor that was received, and a free gives it back as well.
  free_ion_after_import :
      (remote buf : VisionBuf) (fd : ℕ) (s t : Option ℕ × W) (h : Holdings) {rc : ℤ}
      {known : Option ℕ} {v : W}
      → remote.fd ≡ pos fd
      → ledger.held s.1 ≡ (h.0, plus fd h.1, h.2)
      → import_ion ion remote s ≡ done (buf, t.0, t.1)
      → free_ion ion buf t ≡ done (rc, known, v)
      → Left buf fd rc h (ledger.held v)
  free_ion_after_import remote buf fd s t h this first_held taken_over freed =
      let (same, holds) = import_ion-held ion ledger remote s taken_over in
      free_ion-Left buf fd t.0 t.1 h (same ∙ this)
        (with_file buf.handle buf.mmap_len first_held holds) freed
    where
      with_file :
          {a b : Holdings} (handle len : ℕ)
          → a ≡ (h.0, plus fd h.1, h.2)
          → b ≡ (plus handle a.0, a.1, plus len a.2)
          → b ≡ (plus handle h.0, plus fd h.1, plus len h.2)
      with_file handle len p q = cc
