-- ===== src/Stream/Mailbox.antt =====
-- What a subscriber is promised: its pending messages as a queue. A conflating subscriber takes
-- the latest and drops the ones before it; any other takes the oldest.
use msgq.Base.{◌≡◌, refl, Bool, true, false, List, [], ◌∷◌, ◌++◌, ℕ}

-- What is taken from the pending messages `m ∷ rest`, and what is left.
unfoldable pub pick : Bool → List ℕ → List (List ℕ) → List ℕ × List (List ℕ)
pick conflate m [] = (m, [])
pick false m (n ∷ rest) = (m, n ∷ rest)
pick true m (n ∷ rest) = pick true n rest

-- Without conflation the oldest message is taken.
pub pick_oldest : (m : List ℕ) (rest : List (List ℕ)) → pick false m rest ≡ (m, rest)
unfolding pick
pick_oldest m [] = refl
pick_oldest m (n ∷ rest) = refl

-- With conflation only the latest is taken, and nothing is left.
pub pick_latest :
    (m : List ℕ) (rest : List (List ℕ)) (n : List ℕ) → pick true m (rest ++ n ∷ []) ≡ (n, [])
unfolding pick
pick_latest m [] n = refl
pick_latest m (k ∷ rest) n = pick_latest k rest n

pub pick-nil : (conflate : Bool) (m : List ℕ) → pick conflate m [] ≡ (m, [])
unfolding pick
pick-nil true m = refl
pick-nil false m = refl

pub pick-skip :
    (conflate : Bool) (m n : List ℕ) (rest : List (List ℕ))
    → conflate ≡ true
    → pick conflate m (n ∷ rest) ≡ pick conflate n rest
unfolding pick
pick-skip true m n rest e = refl
pick-skip false m n rest e = cc

pub pick-first :
    (conflate : Bool) (m : List ℕ) (rest : List (List ℕ))
    → conflate ≡ false
    → pick conflate m rest ≡ (m, rest)
unfolding pick
pick-first true m rest e = cc
pick-first false m rest e = pick_oldest m rest
