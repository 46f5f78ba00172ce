-- ===== src/Polling/Passes.antt =====
-- The passes of `msgq_poll` over its items.
use msgq.Vision.Listener.{answer}
use msgq.Subscriber.{Os, ready}
use msgq.Polling.{
  Process, ready_queue, Item, is_zero, check_item, set_event, recheck_item, each_item, World,
}
use msgq.Queue.{◌>>=◌, Run, done-injective, >>=-done, done}
use msgq.Base.{
  suc, ◌+◌, ◌≡◌, refl, sym, ap, ◌∙◌, subst, inl, inr, Bool, true, false, List, [], ◌∷◌, arith,
  if◌then◌else◌, Bool-cases, ℤ, ℕ,
}

-- the items with an event
abbrev pub weight : Item → ℕ
weight item = if is_zero item.revents then 0 else 1

abbrev pub total {ℓ} : {A : Type ℓ} → (A → ℕ) → List A → ℕ
total f [] = 0
total f (x ∷ xs) = f x + total f xs

abbrev pub queues : List Item → List ℕ
queues [] = []
queues (item ∷ items) = item.queue ∷ queues items

-- A pass over the items: `msgq_msg_ready` is asked once about the queue of each, in order, each
-- time in the process that the last answer left, and the item has an event exactly if the answer is
-- not 0.
pub data Asks (os : Os) : List Item → Process → List Item → Process → Type 0 where
  no_item : {p : Process} → Asks os [] p [] p
  asked :
      {item item' : Item} {items items' : List Item} {p p1 p2 : Process} (rc : ℤ)
      → ready_queue os item.queue p ≡ done (rc, p1)
      → is_zero item'.revents ≡ is_zero rc
      → item'.queue ≡ item.queue
      → Asks os items p1 items' p2
      → Asks os (item ∷ items) p (item' ∷ items') p2

-- Passes over the items: the first, and after each pass without an event another one once other
-- threads have acted during a sleep, `n` sleeps being left at most.
pub data Passes (os : Os) (world : World)
    : ℕ → List Item → Process → List Item → Process → Type 0 where
  last_pass :
      {n : ℕ} {items items' : List Item} {p p' : Process}
      → Asks os items p items' p'
      → Passes os world n items p items' p'
  slept :
      {n : ℕ} {items items' items'' : List Item} {p p' p'' : Process}
      → Asks os items p items' p'
      → total weight items' ≡ 0
      → Passes os world n items' (record p' { segments = world.others n p'.segments }) items'' p''
      → Passes os world (suc n) items p items'' p''

-- a body that asks about its item, if the item qualifies
abbrev pub Asking : Os → (Item → Type 0) → (Item → Process → Run (ℕ × Item × Process)) → Type 0
Asking os Fit body =
    (item : Item) (p : Process) (t : ℕ × Item × Process)
    → Fit item
    → body item p ≡ done t
    → (rc : ℤ) × (ready_queue os item.queue p ≡ done (rc, t.2))
      × (is_zero t.1.revents ≡ is_zero rc)
      × (t.1.queue ≡ item.queue)

abbrev pub AllFit : (Item → Type 0) → List Item → Type 0
AllFit Fit [] = Unit {0}
AllFit Fit (item ∷ items) = Fit item × AllFit Fit items

pub each_item-Asks :
    (os : Os) (Fit : Item → Type 0) (body : Item → Process → Run (ℕ × Item × Process))
    → Asking os Fit body
    → (items : List Item) (p : Process) {t : ℕ × List Item × Process} → AllFit Fit items
    → each_item body items p ≡ done t
    → Asks os items p t.1 t.2
unfolding each_item
each_item-Asks os Fit body asking [] p fit e =
    subst (λ (t : ℕ × List Item × Process). Asks os [] p t.1 t.2) (done-injective e) no_item
each_item-Asks os Fit body asking (item ∷ items) p fit e =
    let (x, at_first, f) = >>=-done (body item p) _ e in
    let (y, rest, g) = >>=-done (each_item body items x.2) _ f in
    let (rc, answer, event, same) = asking item p x fit.0 at_first in
    subst (λ (t : ℕ × List Item × Process). Asks os (item ∷ items) p t.1 t.2) (done-injective g)
      (asked rc answer event same (each_item-Asks os Fit body asking items x.2 fit.1 rest))

pub check_item-Asking : (os : Os) → Asking os (λ item. Unit {0}) (check_item os)
unfolding check_item
check_item-Asking os item p t fit e =
    let (x, answer, f) = >>=-done (ready_queue os item.queue p) _ e in
    subst
      (λ u.
        (rc : ℤ) × (ready_queue os item.queue p ≡ done (rc, u.2))
        × (is_zero u.1.revents ≡ is_zero rc)
        × (u.1.queue ≡ item.queue))
      (done-injective f) (x.0, answer, refl, refl)

-- no event yet
abbrev pub Silent : Item → Type 0
Silent item = is_zero item.revents ≡ true

set_event-Asking :
    (item : Item) (x : ℤ × Process)
    → is_zero item.revents ≡ true
    → (is_zero (set_event item x).1.revents ≡ is_zero x.0)
      × ((set_event item x).1.queue ≡ item.queue)
      × ((set_event item x).2 ≡ x.1)
unfolding set_event
set_event-Asking item (rc, p) silent = elim (Bool-cases (is_zero rc)) [
  | inl still ↦ rw still (silent, refl, refl)
  | inr ready ↦ rw ready (refl, refl, refl)
]

pub recheck_item-Asking : (os : Os) → Asking os Silent (recheck_item os)
unfolding recheck_item
recheck_item-Asking os item p t silent e = go (is_zero item.revents) silent e
  where
    go :
        (b : Bool)
        → b ≡ true
        → (if b
            then ready_queue os item.queue p >>= (λ x. done (set_event item x))
            else done (0, item, p))
          ≡ done t
        → (rc : ℤ) × (ready_queue os item.queue p ≡ done (rc, t.2))
          × (is_zero t.1.revents ≡ is_zero rc)
          × (t.1.queue ≡ item.queue)
    go true new f =
        let (x, answer, g) =
          >>=-done (ready_queue os item.queue p) (λ x. done (set_event item x)) f in
        let (event, same, kept) = set_event-Asking item x silent in
        subst
          (λ u.
            (rc : ℤ) × (ready_queue os item.queue p ≡ done (rc, u.2))
            × (is_zero u.1.revents ≡ is_zero rc)
            × (u.1.queue ≡ item.queue))
          (done-injective g) (x.0, answer ∙ ap (λ q. done (x.0, q)) (sym kept), event, same)
    go false new f = cc

pub all-Silent : (items : List Item) → total weight items ≡ 0 → AllFit Silent items
all-Silent [] e = tt
all-Silent (item ∷ items) e =
    (silent (is_zero item.revents) (omega (arith, e)), all-Silent items (omega (arith, e)))
  where
    silent : (b : Bool) → if◌then◌else◌ {A = ℕ} b 0 1 ≡ 0 → b ≡ true
    silent true z = refl
    silent false z = absurd (omega (arith, z))

pub all-Fit : (items : List Item) → AllFit (λ item. Unit {0}) items
all-Fit [] = tt
all-Fit (item ∷ items) = (tt, all-Fit items)
