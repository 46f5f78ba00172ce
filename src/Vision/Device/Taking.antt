-- ===== src/Vision/Device/Taking.antt =====
-- What allocating and importing a buffer of msgq/visionipc/visionbuf_ion.cc takes.
use msgq.Words.{u64}
use msgq.Vision.Device.Ledger.{
  Holdings, plus, taken, Ledger, ask-Charged, ion_fd-kept, map_asserted-held,
}
use msgq.Vision.Device.{
  Ion, ion_fd, ask, map_asserted, allocate_ion, import_ion, alloc, share, take_in,
}
use msgq.Vision.{VisionBuf, allocate}
use msgq.Queue.{◌>>=◌, Run, done-injective, >>=-done, done, aborted}
use msgq.Base.{◌+◌, ◌≡◌, refl, subst, Option, some, ℤ, pos, negsuc, ℕ}

module _ {W : Type 0} (ion : Ion W) (ledger : Ledger ion) where
  -- an allocation adds a handle, a file and a mapping: those of the buffer
  pub allocate_ion-held :
      (size : ℕ) (buf : VisionBuf) (s : Option ℕ × W) {b : VisionBuf} {known : Option ℕ} {u : W}
      → allocate_ion ion size buf s ≡ done (b, known, u)
      → (fd : ℕ) × (b.fd ≡ pos fd) × (ledger.held u ≡ taken b fd (ledger.held s.1))
  unfolding allocate_ion allocate
  allocate_ion-held size buf s e =
      let ((device, w), e0, r0) = >>=-done (ion_fd ion s) _ e in
      let ((handle, w1), e1, r1) = >>=-done (ask ion device (alloc (u64 (size + 8)) 4096) w) _ r0 in
      let ((fd, w2), e2, r2) = >>=-done (ask ion device (share handle) w1) _ r1 in
      let (w3, e3, r3) = >>=-done (map_asserted ion fd (u64 (size + 8)) w2) _ r2 in
      subst
        (λ (x : VisionBuf × Option ℕ × W).
          (fd : ℕ) × (x.0.fd ≡ pos fd) × (ledger.held x.2 ≡ taken x.0 fd (ledger.held s.1)))
        (done-injective r3)
        (
          fd,
          refl,
          summed handle fd (u64 (size + 8)) (ion_fd-kept ion ledger s e0)
              (ask-Charged ion ledger device (alloc (u64 (size + 8)) 4096) w e1)
              (ask-Charged ion ledger device (share handle) w1 e2)
              (map_asserted-held ion ledger fd (u64 (size + 8)) w2 e3),
        )
    where
      summed :
          (handle fd len : ℕ) {h0 h1 h2 h3 h4 : Holdings}
          → h1 ≡ h0
          → h2 ≡ (plus handle h1.0, h1.1, h1.2)
          → h3 ≡ (h2.0, plus fd h2.1, h2.2)
          → h4 ≡ (h3.0, h3.1, plus len h3.2)
          → h4 ≡ (plus handle h0.0, plus fd h0.1, plus len h0.2)
      summed handle fd len p0 p1 p2 p3 = cc

  -- an import adds a handle and a mapping: those of the buffer
  pub import_ion-held :
      (buf : VisionBuf) (s : Option ℕ × W) {b : VisionBuf} {known : Option ℕ} {u : W}
      → import_ion ion buf s ≡ done (b, known, u)
      → (b.fd ≡ buf.fd)
        × (ledger.held u ≡ (
          plus b.handle (ledger.held s.1).0,
          (ledger.held s.1).1,
          plus b.mmap_len (ledger.held s.1).2,
        ))
  unfolding import_ion
  import_ion-held buf s e = pick buf.fd e
    where
      summed :
          (handle len : ℕ) {h0 h1 h2 h3 : Holdings}
          → h1 ≡ h0
          → h2 ≡ (plus handle h1.0, h1.1, h1.2)
          → h3 ≡ (h2.0, h2.1, plus len h2.2)
          → h3 ≡ (plus handle h0.0, h0.1, plus len h0.2)
      summed handle len p0 p1 p2 = cc

      pick :
          (fd : ℤ) {b : VisionBuf} {known : Option ℕ} {u : W}
          → elim fd as (λ _. Run (VisionBuf × Option ℕ × W)) [
            | negsuc _ ↦ aborted
            | pos fd ↦ do
              (device, w) ← ion_fd ion s
              (handle, w1) ← ask ion device (take_in fd) w
              w2 ← map_asserted ion fd buf.mmap_len w1
              done (record buf { handle = handle }, some device, w2)
          ]
            ≡ done (b, known, u)
          → (b.fd ≡ buf.fd)
            × (ledger.held u ≡ (
              plus b.handle (ledger.held s.1).0,
              (ledger.held s.1).1,
              plus b.mmap_len (ledger.held s.1).2,
            ))
      pick (negsuc n) e = cc
      pick (pos fd) e =
          let ((device, w), e0, r0) = >>=-done (ion_fd ion s) _ e in
          let ((handle, w1), e1, r1) = >>=-done (ask ion device (take_in fd) w) _ r0 in
          let (w2, e2, r2) = >>=-done (map_asserted ion fd buf.mmap_len w1) _ r1 in
          subst
            (λ (x : VisionBuf × Option ℕ × W).
              (x.0.fd ≡ buf.fd)
              × (ledger.held x.2 ≡ (
                plus x.0.handle (ledger.held s.1).0,
                (ledger.held s.1).1,
                plus x.0.mmap_len (ledger.held s.1).2,
              )))
            (done-injective r2)
            (
              refl,
              summed handle buf.mmap_len (ion_fd-kept ion ledger s e0)
                  (ask-Charged ion ledger device (take_in fd) w e1)
                  (map_asserted-held ion ledger fd buf.mmap_len w1 e2),
            )
