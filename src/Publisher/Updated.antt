-- ===== src/Publisher/Updated.antt =====
-- What `msgq_all_readers_updated` of msgq/msgq.cc tells.
use msgq.Queue.{Segment}
use msgq.Publisher.{all_updated_from, all_readers_updated}
use native.Mathlib.Decide.{ℕ_discrete}
use msgq.Base.{
  zero, suc, ◌+◌, ◌≤◌, ◌<◌, ◌≡◌, refl, sym, ◌∙◌, subst, ◌↔◌, ◌⊎◌, inl, inr, Bool, true, false, not,
  ◌&&◌, arith, ◌==◌, ltb→lt, lt→ltb, ==_of_eq, ==_of_ne, Bool-cases, true≢false, ℕ,
}

-- the reader in a slot has lost its flag, or its pointer is the writer's
abbrev pub UpToDate : Segment → ℕ → Type 0
UpToDate s i = (s.read_valids i ≡ 0) ⊎ (s.write_pointer ≡ s.read_pointers i)

late : Segment → ℕ → Bool
late s i = not (s.read_valids i == 0) && not (s.write_pointer == s.read_pointers i)

late-UpToDate : (s : Segment) (i : ℕ) → late s i ≡ false → UpToDate s i
unfolding late
late-UpToDate s i e = elim (ℕ_discrete (s.read_valids i) 0) [
  | yes off ↦ inl off
  | no on ↦ elim (ℕ_discrete s.write_pointer (s.read_pointers i)) [
    | yes here ↦ inr here
    | no away ↦ absurd (true≢false (sym (rw (==_of_ne _ _ on, ==_of_ne _ _ away) refl) ∙ e))
  ]
]

UpToDate-late : (s : Segment) (i : ℕ) → UpToDate s i → late s i ≡ false
unfolding late
UpToDate-late s i (inl off) = rw (==_of_eq _ _ off) refl
UpToDate-late s i (inr here) = elim (Bool-cases (s.read_valids i == 0)) [
  | inl e ↦ rw e refl
  | inr e ↦ rw (e, ==_of_eq _ _ here) refl
]

all_updated_from-true :
    (n i : ℕ) (s : Segment)
    → all_updated_from n i s ≡ true
    → (j : ℕ) → i ≤ j
    → j < i + n
    → UpToDate s j
unfolding all_updated_from late
all_updated_from-true zero i s e j l u = absurd (omega (arith, l, u))
all_updated_from-true (suc n) i s e j l u = elim (Bool-cases (late s i)) [
  | inl bad ↦ absurd (true≢false (sym e ∙ rw bad refl))
  | inr good ↦ elim (ℕ_discrete i j) [
    | yes here ↦ subst (UpToDate s) here (late-UpToDate s i good)
    | no further ↦
        all_updated_from-true n (i + 1) s (sym (rw good refl) ∙ e) j (omega (arith, l, further))
          (omega (arith, u))
  ]
]

all_updated_from_complete :
    (n i : ℕ) (s : Segment)
    → ((j : ℕ) → i ≤ j → j < i + n → UpToDate s j)
    → all_updated_from n i s ≡ true
unfolding all_updated_from late
all_updated_from_complete zero i s h = refl
all_updated_from_complete (suc n) i s h =
    rw (UpToDate-late s i (h i (omega arith) (omega arith)))
      (all_updated_from_complete n (i + 1) s (λ j l u. h j (omega (arith, l)) (omega (arith, u))))

-- `msgq_all_readers_updated` answers true exactly when there is a reader, and each listed reader
-- has lost its flag or stands at the write pointer, the cycle included.
pub all_readers_updated_iff :
    (s : Segment)
    → (all_readers_updated s ≡ true)
      ↔ ((0 < s.num_readers) × ((i : ℕ) → i < s.num_readers → UpToDate s i))
unfolding all_readers_updated
all_readers_updated_iff s = (forth, back)
  where
    forth :
        all_readers_updated s ≡ true
        → (0 < s.num_readers) × ((i : ℕ) → i < s.num_readers → UpToDate s i)
    forth e = elim (Bool-cases (all_updated_from s.num_readers 0 s)) [
      | inl all ↦ (
        ltb→lt 0 s.num_readers (sym (rw all refl) ∙ e),
        λ i h. all_updated_from-true s.num_readers 0 s all i (omega arith) (omega (arith, h)),
      )
      | inr none_of ↦ absurd (true≢false (sym e ∙ rw none_of refl))
    ]

    back :
        (0 < s.num_readers) × ((i : ℕ) → i < s.num_readers → UpToDate s i)
        → all_readers_updated s ≡ true
    back (some_reader, all) =
        rw
          (
            all_updated_from_complete s.num_readers 0 s (λ j l u. all j (omega (arith, u))),
            lt→ltb 0 s.num_readers some_reader,
          )
          refl
