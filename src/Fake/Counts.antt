-- ===== src/Fake/Counts.antt =====
-- What a list of system calls of msgq/event.cc opens, maps and makes, and the calls of a function in
-- several steps.
use msgq.Fake.Handle.{
  Act, Tried, ◌>>=◌, opened, closed, truncated, mapped, unmapped, fifo_made, unlinked,
  shared_unlinked,
}
use msgq.Base.{suc, ◌≡◌, refl, sym, ap, none, some, List, [], ◌∷◌, ◌++◌, ℕ}

-- the descriptors opened, and closed, in order
abbrev pub opens : List Act → List ℕ
opens [] = []
opens (opened fd ∷ acts) = fd ∷ opens acts
opens (closed fd ∷ acts) = opens acts
opens (truncated fd ∷ acts) = opens acts
opens (mapped ∷ acts) = opens acts
opens (unmapped ∷ acts) = opens acts
opens (fifo_made p ∷ acts) = opens acts
opens (unlinked p ∷ acts) = opens acts
opens (shared_unlinked p ∷ acts) = opens acts

abbrev pub closes : List Act → List ℕ
closes [] = []
closes (opened fd ∷ acts) = closes acts
closes (closed fd ∷ acts) = fd ∷ closes acts
closes (truncated fd ∷ acts) = closes acts
closes (mapped ∷ acts) = closes acts
closes (unmapped ∷ acts) = closes acts
closes (fifo_made p ∷ acts) = closes acts
closes (unlinked p ∷ acts) = closes acts
closes (shared_unlinked p ∷ acts) = closes acts

-- how often the state is mapped, less how often it is unmapped
abbrev pub maps : List Act → ℕ
maps [] = 0
maps (opened fd ∷ acts) = maps acts
maps (closed fd ∷ acts) = maps acts
maps (truncated fd ∷ acts) = maps acts
maps (mapped ∷ acts) = suc (maps acts)
maps (unmapped ∷ acts) = maps acts
maps (fifo_made p ∷ acts) = maps acts
maps (unlinked p ∷ acts) = maps acts
maps (shared_unlinked p ∷ acts) = maps acts

abbrev pub unmaps : List Act → ℕ
unmaps [] = 0
unmaps (opened fd ∷ acts) = unmaps acts
unmaps (closed fd ∷ acts) = unmaps acts
unmaps (truncated fd ∷ acts) = unmaps acts
unmaps (mapped ∷ acts) = unmaps acts
unmaps (unmapped ∷ acts) = suc (unmaps acts)
unmaps (fifo_made p ∷ acts) = unmaps acts
unmaps (unlinked p ∷ acts) = unmaps acts
unmaps (shared_unlinked p ∷ acts) = unmaps acts

-- the pipes made, and the paths unlinked, in order
abbrev pub fifos : List Act → List (List ℕ)
fifos [] = []
fifos (opened fd ∷ acts) = fifos acts
fifos (closed fd ∷ acts) = fifos acts
fifos (truncated fd ∷ acts) = fifos acts
fifos (mapped ∷ acts) = fifos acts
fifos (unmapped ∷ acts) = fifos acts
fifos (fifo_made p ∷ acts) = p ∷ fifos acts
fifos (unlinked p ∷ acts) = fifos acts
fifos (shared_unlinked p ∷ acts) = fifos acts

abbrev pub unlinks : List Act → List (List ℕ)
unlinks [] = []
unlinks (opened fd ∷ acts) = unlinks acts
unlinks (closed fd ∷ acts) = unlinks acts
unlinks (truncated fd ∷ acts) = unlinks acts
unlinks (mapped ∷ acts) = unlinks acts
unlinks (unmapped ∷ acts) = unlinks acts
unlinks (fifo_made p ∷ acts) = unlinks acts
unlinks (unlinked p ∷ acts) = p ∷ unlinks acts
unlinks (shared_unlinked p ∷ acts) = unlinks acts

-- A call in several steps that did not throw.
pub >>=-some :
    {A B : Type 0} (m : Tried A) (f : A → Tried B) {acts : List Act} {b : B}
    → (m >>= f) ≡ (acts, some b)
    → (a : A) × (before : List Act) × (after : List Act) × (m ≡ (before, some a))
      × (f a ≡ (after, some b))
      × (acts ≡ before ++ after)
>>=-some (before, none) f e = absurd (cc (ap (λ x. x.1) e))
>>=-some (before, some a) f {b = b} e =
    (a, before, (f a).0, refl, ap (λ r. ((f a).0, r)) (ap (λ x. x.1) e), sym (ap (λ x. x.0) e))
