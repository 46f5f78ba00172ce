-- ===== src/Race/Repeated.antt =====
-- Steps of one side, repeated.
use native.Mathlib.Nat.{suc-add, zero-add}
use msgq.Base.{zero, suc, ◌+◌, ◌≡◌, refl, ap, ◌∙◌, ℕ}

module _ {ℓ} {S : Type ℓ} (f : S → S) where
  unfoldable pub repeat : ℕ → S → S
  repeat zero x = x
  repeat (suc k) x = repeat k (f x)

  -- some number of steps leads from `x` to `y`
  abbrev pub Leads : S → S → Type ℓ
  Leads x y = (k : ℕ) × (repeat k x ≡ y)

  pub here : (x : S) → Leads x x
  unfolding repeat
  here x = (0, refl)

  pub by_step : {y z : S} (x : S) → f x ≡ y → Leads y z → Leads x z
  unfolding repeat
  by_step x e (k, more) = (suc k, ap (repeat k) e ∙ more)

  repeat-repeat : (j k : ℕ) (x : S) → repeat (j + k) x ≡ repeat k (repeat j x)
  unfolding repeat
  repeat-repeat zero k x = rw zero-add refl
  repeat-repeat (suc j) k x = rw (suc-add j k) (repeat-repeat j k (f x))

  pub then_on : (x : S) {y z : S} → Leads x y → Leads y z → Leads x z
  then_on x (j, first) (k, second) = (j + k, repeat-repeat j k x ∙ ap (repeat k) first ∙ second)
