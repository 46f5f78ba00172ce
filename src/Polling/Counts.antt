-- ===== src/Polling/Counts.antt =====
-- What the result of `msgq_poll` counts.
use msgq.Polling.Passes.{
  weight, total, queues, Asks, Passes, each_item-Asks, check_item-Asking, Silent,
  recheck_item-Asking, all-Silent, all-Fit, last_pass, slept,
}
use msgq.Subscriber.{Os}
use msgq.Queue.{◌>>=◌, Run, done-injective, >>=-done, done}
use msgq.Polling.{
  timespec_of, poll, set_event, ready_queue, Timespec, World, is_minus_one, wait_items, Process,
  Item, is_zero, check_item, recheck_item, each_item,
}
use msgq.Base.{
  true≢false, ==_of_eq, Bool, true, not, ◌&&◌, ◌==◌, ==_iff, zero, suc, sym, ◌∙◌, inl, inr, false,
  Bool-cases, ℤ, ◌+◌, ◌≡◌, refl, subst, List, [], ◌∷◌, arith, if◌then◌else◌, ℕ,
}

-- the items keep their queues, and the items with an event are `n` and those counted before
abbrev pub Tally : (Item → ℕ) → List Item → ℕ × List Item × Process → Type 0
Tally before items t = (total weight t.1 ≡ t.0 + total before items) × (queues t.1 ≡ queues items)

Step : (Item → ℕ) → (Item → Process → Run (ℕ × Item × Process)) → Type 0
Step before body =
    (item : Item) (p : Process) (t : ℕ × Item × Process)
    → body item p ≡ done t
    → (weight t.1 ≡ t.0 + before item) × (t.1.queue ≡ item.queue)

each_item-Tally :
    (before : Item → ℕ) (body : Item → Process → Run (ℕ × Item × Process))
    → Step before body
    → (items : List Item) (p : Process) {t : ℕ × List Item × Process}
    → each_item body items p ≡ done t
    → Tally before items t
unfolding each_item Step
each_item-Tally before body step [] p e = subst (Tally before []) (done-injective e) (refl, refl)
each_item-Tally before body step (item ∷ items) p e =
    let (x, at_first, f) = >>=-done (body item p) _ e in
    let (y, rest, g) = >>=-done (each_item body items x.2) _ f in
    let (one, same) = step item p x at_first in
    let (many, sames) = each_item-Tally before body step items x.2 rest in
    subst (Tally before (item ∷ items)) (done-injective g) (omega (arith, one, many), cc)

total_zero : (items : List Item) → total (λ item. 0) items ≡ 0
total_zero [] = refl
total_zero (item ∷ items) = omega (arith, total_zero items)

check_item-Step : (os : Os) → Step (λ item. 0) (check_item os)
unfolding check_item Step
check_item-Step os item p t e =
    let (x, _, f) = >>=-done (ready_queue os item.queue p) _ e in
    subst (λ u. (weight u.1 ≡ u.0 + 0) × (u.1.queue ≡ item.queue)) (done-injective f)
      (omega arith, refl)

set_event-weight :
    (item : Item) (x : ℤ × Process)
    → weight item ≡ 0
    → (weight (set_event item x).1 ≡ (set_event item x).0 + weight item)
      × ((set_event item x).1.queue ≡ item.queue)
unfolding set_event
set_event-weight item (rc, p) new = elim (Bool-cases (is_zero rc)) [
  | inl still ↦ rw still (omega arith, refl)
  | inr ready ↦ rw ready (omega (arith, new), refl)
]

recheck_item-Step : (os : Os) → Step weight (recheck_item os)
unfolding recheck_item Step
recheck_item-Step os item p t e = go (is_zero item.revents) refl e
  where
    go :
        (b : Bool)
        → is_zero item.revents ≡ b
        → (if b
            then ready_queue os item.queue p >>= (λ x. done (set_event item x))
            else done (0, item, p))
          ≡ done t
        → (weight t.1 ≡ t.0 + weight item) × (t.1.queue ≡ item.queue)
    go true new f =
        let (x, _, g) = >>=-done (ready_queue os item.queue p) (λ x. done (set_event item x)) f in
        subst (λ u. (weight u.1 ≡ u.0 + weight item) × (u.1.queue ≡ item.queue)) (done-injective g)
          (set_event-weight item x (rw new refl))
    go false old f =
        subst (λ u. (weight u.1 ≡ u.0 + weight item) × (u.1.queue ≡ item.queue)) (done-injective f)
          (omega arith, refl)

-- Of a poll that returned: its passes, how many events it counted, and that it is 0 only with a
-- timeout.
abbrev Report : Os → World → ℤ → ℕ → List Item → Process → ℕ × List Item × Process → Type 0
Report os world timeout n items p t =
    Passes os world n items p t.1 t.2
    × (total weight t.1 ≡ t.0)
    × (queues t.1 ≡ queues items)
    × (t.0 ≡ 0 → is_minus_one timeout ≡ false)

not-&&_true : (b c : Bool) → (not b && c) ≡ true → b ≡ false
not-&&_true true c e = sym e
not-&&_true false c e = refl

-- the loop, entered with what a pass over `items0` left without an event
wait_items-Report :
    (os : Os) (world : World) (timeout : ℤ) (n : ℕ) (ts : Timespec) (items0 items : List Item)
    (p0 p : Process) {t : ℕ × List Item × Process}
    → Asks os items0 p0 items p
    → queues items ≡ queues items0
    → total weight items ≡ 0
    → wait_items os world timeout n ts items p ≡ done t
    → Report os world timeout n items0 p0 t
unfolding wait_items
wait_items-Report os world timeout zero ts items0 items p0 p asks kept silent e = cc
wait_items-Report os world timeout (suc n) ts items0 items p0 p {t} asks kept silent e =
    let woken = record p { segments = world.others n p.segments } in
    let (x, at_first, f) = >>=-done (each_item (recheck_item os) items woken) _ e in
    let (sum, same) =
      each_item-Tally weight (recheck_item os) (recheck_item-Step os) items _ at_first in
    let again_asked =
      each_item-Asks os Silent (recheck_item os) (recheck_item-Asking os) items woken
        (all-Silent items silent) at_first in
    let (passes, counted, queues_kept, ends) =
      go x again_asked
        (λ none_yet g.
          wait_items-Report os world timeout n _ items x.1 woken x.2 again_asked same none_yet g)
        (omega (arith, sum, silent)) same (x.0 == 0) refl _ refl f in
    (slept asks silent passes, counted, queues_kept ∙ kept, ends)
  where
    go :
        (x : ℕ × List Item × Process)
        → Asks os items (record p { segments = world.others n p.segments }) x.1 x.2
        → (total weight x.1 ≡ 0
            → wait_items os world timeout n (world.nanosleep n ts).1 x.1 x.2 ≡ done t
            → Report os world timeout n items (record p { segments = world.others n p.segments }) t)
        → total weight x.1 ≡ x.0
        → queues x.1 ≡ queues items
        → (b : Bool) → (x.0 == 0) ≡ b
        → (c : Bool) → (not (is_minus_one timeout) && is_zero (world.nanosleep n ts).0) ≡ c
        → elim (b && not c) [
          | true ↦ wait_items os world timeout n (world.nanosleep n ts).1 x.1 x.2
          | false ↦ done x
        ]
          ≡ done t
        → Report os world timeout n items (record p { segments = world.others n p.segments }) t
    go x asks rest sum same true none_yet true over f =
        subst (Report os world timeout n items (record p { segments = world.others n p.segments }))
          (done-injective f)
          (last_pass asks, sum, same, λ q. not-&&_true (is_minus_one timeout) _ over)
    go x asks rest sum same true none_yet false over f =
        rest (omega (arith, sum, (==_iff x.0 0).0 none_yet)) f
    go x asks rest sum same false some_event c over f =
        subst (Report os world timeout n items (record p { segments = world.others n p.segments }))
          (done-injective f)
          (last_pass asks, sum, same, λ q. absurd (true≢false (sym (==_of_eq _ _ q) ∙ some_event)))

-- Whatever items, sleeps and other threads `msgq_poll` is given: if it returns, its passes asked
-- `msgq_msg_ready` about the queue of each item, once and in order, an item has an event exactly
-- if the answer to it in the last pass was other than 0, the passes before had no event, the
-- result is the number of items with an event, and it is 0 only if a timeout was given.
pub poll_reports :
    (os : Os) (world : World) (timeout : ℤ) (rounds : ℕ) (items : List Item) (p : Process)
    {t : ℕ × List Item × Process}
    → poll os world timeout rounds items p ≡ done t
    → Passes os world rounds items p t.1 t.2
      × (total weight t.1 ≡ t.0)
      × (queues t.1 ≡ queues items)
      × (t.0 ≡ 0 → is_minus_one timeout ≡ false)
unfolding poll
poll_reports os world timeout rounds items p {t} e =
    let (x, at_first, f) = >>=-done (each_item (check_item os) items p) _ e in
    let (sum, same) =
      each_item-Tally (λ item. 0) (check_item os) (check_item-Step os) items p at_first in
    let asks =
      each_item-Asks os (λ item. Unit {0}) (check_item os) (check_item-Asking os) items p
        (all-Fit items) at_first in
    go x asks (omega (arith, sum, total_zero items)) same (x.0 == 0) refl f
  where
    go :
        (x : ℕ × List Item × Process)
        → Asks os items p x.1 x.2
        → total weight x.1 ≡ x.0
        → queues x.1 ≡ queues items
        → (b : Bool) → (x.0 == 0) ≡ b
        → elim b [
          | true ↦ wait_items os world timeout rounds (timespec_of timeout) x.1 x.2
          | false ↦ done x
        ]
          ≡ done t
        → Report os world timeout rounds items p t
    go x asks sum same true none_yet f =
        wait_items-Report os world timeout rounds _ items x.1 p x.2 asks same
          (omega (arith, sum, (==_iff x.0 0).0 none_yet)) f
    go x asks sum same false some_event f =
        subst (Report os world timeout rounds items p) (done-injective f)
          (last_pass asks, sum, same, λ q. absurd (true≢false (sym (==_of_eq _ _ q) ∙ some_event)))
