-- ===== src/Lifecycle/Balance.antt =====
-- What `msgq_new_queue` and `msgq_close_queue` of msgq/msgq.cc leave open or mapped.
use msgq.Queue.{aborted, done-injective, Queue, done}
use msgq.Lifecycle.{
  header_size, base_path, Host, Call, set_up, map_queue, size_queue, open_queue, new_queue,
  close_queue, signal_handled, opened, truncated, mapped_in, closed, unmapped,
}
use msgq.Base.{
  ◌≢◌, ◌+◌, ◌-◌, ◌^◌, refl, sym, ap, ◌∙◌, subst, inl, inr, ltb, Bool-cases, ℤ-cases, concat, String,
  ◌≡◌, ◌⊎◌, List, [], ◌∷◌, ℤ, pos, negsuc, ℕ,
}

-- the descriptors opened, and closed, in order
abbrev pub opens : List Call → List ℕ
opens [] = []
opens (opened path fd ∷ calls) = fd ∷ opens calls
opens (signal_handled ∷ calls) = opens calls
opens (truncated fd n ∷ calls) = opens calls
opens (mapped_in fd n ∷ calls) = opens calls
opens (closed fd ∷ calls) = opens calls
opens (unmapped n ∷ calls) = opens calls

abbrev pub closes : List Call → List ℕ
closes [] = []
closes (closed fd ∷ calls) = fd ∷ closes calls
closes (signal_handled ∷ calls) = closes calls
closes (truncated fd n ∷ calls) = closes calls
closes (mapped_in fd n ∷ calls) = closes calls
closes (opened path fd ∷ calls) = closes calls
closes (unmapped n ∷ calls) = closes calls

-- the lengths mapped, and unmapped, in order
abbrev pub maps : List Call → List ℕ
maps [] = []
maps (mapped_in fd n ∷ calls) = n ∷ maps calls
maps (signal_handled ∷ calls) = maps calls
maps (truncated fd n ∷ calls) = maps calls
maps (closed fd ∷ calls) = maps calls
maps (opened path fd ∷ calls) = maps calls
maps (unmapped n ∷ calls) = maps calls

abbrev pub unmaps : List Call → List ℕ
unmaps [] = []
unmaps (unmapped n ∷ calls) = n ∷ unmaps calls
unmaps (signal_handled ∷ calls) = unmaps calls
unmaps (truncated fd n ∷ calls) = unmaps calls
unmaps (closed fd ∷ calls) = unmaps calls
unmaps (opened path fd ∷ calls) = unmaps calls
unmaps (mapped_in fd n ∷ calls) = unmaps calls

-- What holds of a call of `msgq_new_queue` that returns: each descriptor is closed, nothing is
-- unmapped, and either it succeeded, the handle is fresh, and closing it unmaps just what was
-- mapped, or it failed, and left the handle as it was and nothing mapped.
abbrev pub Balanced : Queue → String → ℕ → ℤ × Queue × List Call → Type 0
Balanced q path size (rc, q', calls) =
    (opens calls ≡ closes calls)
    × (unmaps calls ≡ [])
    × (((rc ≡ pos 0) × (q' ≡ set_up q path size) × (maps calls ≡ unmaps (close_queue q')))
        ⊎ ((rc ≡ negsuc 0) × (q' ≡ q) × (maps calls ≡ [])))

-- the same of the calls behind a successful `open`
Ending : Queue → String → ℕ → ℕ → ℤ × Queue × List Call → Type 0
Ending q path size fd (rc, q', calls) =
    (opens calls ≡ [])
    × (closes calls ≡ fd ∷ [])
    × (unmaps calls ≡ [])
    × (((rc ≡ pos 0) × (q' ≡ set_up q path size) × (maps calls ≡ unmaps (close_queue q')))
        ⊎ ((rc ≡ negsuc 0) × (q' ≡ q) × (maps calls ≡ [])))

map_queue-Ending :
    (host : Host) (q : Queue) (path : String) (size fd : ℕ)
    → Ending q path size fd (map_queue host q path size fd)
unfolding map_queue close_queue set_up Ending
map_queue-Ending host q path size fd =
    elim (Bool-cases (host.map_file fd (size + header_size) host.preallocate)) [
      | inl e ↦ rw e (refl, refl, refl, inl (refl, refl, refl))
      | inr e ↦ rw e (refl, refl, refl, inr (refl, refl, refl))
    ]

size_queue-Ending :
    (host : Host) (q : Queue) (path : String) (size fd : ℕ)
    → Ending q path size fd (size_queue host q path size fd)
unfolding size_queue Ending
size_queue-Ending host q path size fd = elim (ℤ-cases (host.truncate fd (size + header_size))) [
  | inl (n, e) ↦ rw (size_queue, e) (map_queue-Ending host q path size fd)
  | inr (n, e) ↦ rw (size_queue, e) (refl, refl, refl, inr (refl, refl, refl))
]

open_queue-Balanced :
    (host : Host) (q : Queue) (path : String) (size : ℕ)
    → Balanced q path size (open_queue host q path size)
unfolding open_queue Ending
open_queue-Balanced host q path size =
    elim (ℤ-cases (host.open_file (concat (base_path host.prefix) path))) [
      | inl (fd, e) ↦
          let (o, c, u, r) = size_queue-Ending host q path size fd in
          rw (open_queue, e) (ap (λ l. fd ∷ l) o ∙ sym c, u, r)
      | inr (n, e) ↦ rw (open_queue, e) (refl, refl, inr (refl, refl, refl))
    ]

done≢aborted {ℓ} : {A : Type ℓ} {a : A} → done a ≢ aborted
done≢aborted e = cc

-- Whatever the operating system answers, a call of `msgq_new_queue` that returns closes each file
-- that it opened, unmaps nothing, and either returns 0, with a handle that is set up and that
-- `msgq_close_queue` unmaps exactly as it was mapped, or returns -1, with the handle as it was and
-- nothing mapped.
pub new_queue_balances :
    (host : Host) (q : Queue) (path : String) (size : ℕ) {t : ℤ × Queue × List Call}
    → new_queue host q path size ≡ done t
    → Balanced q path size t
unfolding new_queue
new_queue_balances host q path size {t} e =
    let x = open_queue host q path size in
    elim (Bool-cases (ltb size (2 ^ 32 - 1))) [
      | inl fits ↦
          subst (Balanced q path size) {x = (x.0, x.1, signal_handled ∷ x.2)}
            (done-injective (sym (rw fits refl) ∙ e)) (open_queue-Balanced host q path size)
      | inr big ↦ absurd (done≢aborted (sym e ∙ rw big refl))
    ]
