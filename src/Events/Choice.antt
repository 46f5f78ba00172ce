-- ===== src/Events/Choice.antt =====
-- Which event `Event::wait_for_one` of msgq/event.cc returns.
use msgq.Events.{
  Kernel, Effect, poll_events, wait_for_one, returned, thrown, unfinished, first_ready,
}
use msgq.Base.{
  some-injective, sym, ap, ◌∙◌, ==_of_eq, true≢false, ◌≢◌, ◌==◌, if◌then◌else◌, ℤ, zero, suc, ◌+◌,
  ◌<◌, ◌≡◌, refl, Bool, true, false, Option, none, some, List, [], ◌∷◌, arith, ℕ,
}

-- the flag at an index of a list
abbrev pub get_elem? {ℓ} : {A : Type ℓ} → List A → ℕ → Option A
get_elem? [] i = none
get_elem? (x ∷ xs) zero = some x
get_elem? (x ∷ xs) (suc i) = get_elem? xs i

returned-index : {W : Type 0} {w v : W} (i k : ℕ) → returned i w ≡ returned k v → i ≡ k
returned-index i k e = cc

returned-world : {W : Type 0} {w v : W} (i k : ℕ) → returned i w ≡ returned k v → w ≡ v
returned-world i k e = cc

pub not-below : (l : ℕ) → ¬ (l < 0)
not-below l = omega arith

first_ready-first :
    (i : ℕ) (revents : List Bool) {k : ℕ}
    → first_ready i revents ≡ some k
    → (j : ℕ) × (k ≡ i + j)
      × (get_elem? revents j ≡ some true)
      × ((l : ℕ) → l < j → get_elem? revents l ≡ some false)
unfolding first_ready
first_ready-first i [] e = cc
first_ready-first i (true ∷ revents) e =
    (0, omega (arith, some-injective e), refl, λ l h. absurd (not-below l h))
first_ready-first i (false ∷ revents) {k} e =
    let (j, eq, here, before) = first_ready-first (i + 1) revents e in
    (suc j, omega (arith, eq), here, earlier j before)
  where
    earlier :
        (j : ℕ)
        → ((l : ℕ) → l < j → get_elem? revents l ≡ some false)
        → (l : ℕ) → l < suc j
        → get_elem? (false ∷ revents) l ≡ some false
    earlier j before zero h = refl
    earlier j before (suc l) h = before l (omega (arith, h))

-- what `Event::wait_for_one` does with the flags of a poll
abbrev choose : {W : Type 0} → ℕ → List Bool → W → Effect W ℕ
choose ret revents w =
    if ret == 0
    then thrown w
    else elim (first_ready 0 revents) [ some i ↦ returned i w | none ↦ thrown w ]

-- the event of index `k` has its flag set, and none before it
abbrev pub FirstSet : List Bool → ℕ → Type 0
FirstSet revents k =
    (get_elem? revents k ≡ some true) × ((l : ℕ) → l < k → get_elem? revents l ≡ some false)

choose-FirstSet :
    {W : Type 0} (ret : ℕ) (revents : List Bool) (w : W) {k : ℕ} {w' : W}
    → choose ret revents w ≡ returned k w'
    → (w ≡ w') × (ret ≢ 0) × FirstSet revents k
choose-FirstSet {W} ret revents w {k} {w'} e = go (ret == 0) refl (first_ready 0 revents) refl e
  where
    go :
        (b : Bool)
        → (ret == 0) ≡ b
        → (o : Option ℕ) → first_ready 0 revents ≡ o
        → (if b then thrown w else elim o [ some i ↦ returned i w | none ↦ thrown w ])
          ≡ returned k w'
        → (w ≡ w') × (ret ≢ 0) × FirstSet revents k
    go true z o f g = cc
    go false z none f g = cc
    go false z (some i) f g =
        let (j, eq, here, before) = first_ready-first 0 revents f in
        let same : k ≡ j = omega (arith, eq, returned-index i k g) in
        rw same
          (returned-world i k g, (λ q. true≢false (sym (==_of_eq ret 0 q) ∙ z)), (here, before))

-- `Event::wait_for_one` returned `k`: its poll returned, with a result other than 0, and of the
-- events polled that of index `k` had `POLLIN`, and none before it had.
pub wait_for_one-FirstSet :
    {W : Type 0} (kernel : Kernel W) (n : ℕ) (events : List ℤ) (timeout : ℤ) (w : W) {k : ℕ}
    {w' : W}
    → wait_for_one kernel n events timeout w ≡ returned k w'
    → (ret : ℕ) × (revents : List Bool) × (poll_events kernel n events timeout w
        ≡ returned (ret, revents) w')
      × (ret ≢ 0)
      × FirstSet revents k
unfolding wait_for_one
wait_for_one-FirstSet {W} kernel n events timeout w {k} {w'} e =
    go (poll_events kernel n events timeout w) refl e
  where
    go :
        (x : Effect W (ℕ × List Bool))
        → poll_events kernel n events timeout w ≡ x
        → elim x [
          | returned (ret, revents) v ↦ choose ret revents v
          | thrown v ↦ thrown v
          | unfinished ↦ unfinished
        ]
          ≡ returned k w'
        → (ret : ℕ) × (revents : List Bool) × (poll_events kernel n events timeout w
            ≡ returned (ret, revents) w')
          × (ret ≢ 0)
          × FirstSet revents k
    go (returned (ret, revents) v) q f =
        let (same, some_ready, first) = choose-FirstSet ret revents v f in
        (ret, revents, q ∙ ap (λ u. returned (ret, revents) u) same, some_ready, first)
    go (thrown v) q f = cc
    go unfinished q f = cc
