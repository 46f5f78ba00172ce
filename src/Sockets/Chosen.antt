-- ===== src/Sockets/Chosen.antt =====
-- Which sockets `Poller::poll` of msgq/ipc.cc returns.
use msgq.Polling.Passes.{weight, total, queues}
use msgq.Subscriber.{Os}
use msgq.Sockets.{
  SubSocket, Poller, register_socket, register_all, new_poller, select_sockets, poll_sockets,
}
use msgq.Queue.{◌>>=◌, done-injective, >>=-done, done}
use msgq.Polling.Counts.{poll_reports}
use msgq.Polling.{poll, Process, Item, is_zero, World, is_minus_one}
use msgq.Base.{
  subst, true, ◌≡◌, refl, sym, ap, ◌∙◌, inl, inr, false, List, [], ◌∷◌, ◌++◌, append-nil,
  append_assoc, arith, length, if◌then◌else◌, Bool-cases, ℤ, ℕ,
}

-- the queues of the sockets, in order
abbrev pub socket_queues : List SubSocket → List ℕ
socket_queues [] = []
socket_queues (socket ∷ sockets) = socket.queue ∷ socket_queues sockets

-- the queues of the items with an event, in order
abbrev pub flagged : List Item → List ℕ
flagged [] = []
flagged (item ∷ items) = if is_zero item.revents then flagged items else item.queue ∷ flagged items

-- the items are those of the sockets
abbrev pub Aligned : Poller → Type 0
Aligned poller = queues poller.polls ≡ socket_queues poller.sockets

queues-append : (xs ys : List Item) → queues (xs ++ ys) ≡ queues xs ++ queues ys
queues-append [] ys = refl
queues-append (x ∷ xs) ys = ap (λ l. x.queue ∷ l) (queues-append xs ys)

socket_queues-append :
    (xs ys : List SubSocket) → socket_queues (xs ++ ys) ≡ socket_queues xs ++ socket_queues ys
socket_queues-append [] ys = refl
socket_queues-append (x ∷ xs) ys = ap (λ l. x.queue ∷ l) (socket_queues-append xs ys)

register_socket-Aligned :
    (socket : SubSocket) (poller : Poller)
    → Aligned poller
    → Aligned (register_socket socket poller)
unfolding register_socket
register_socket-Aligned socket poller a = rw (queues-append, socket_queues-append, a) refl

register_socket-sockets :
    (socket : SubSocket) (poller : Poller) (sockets : List SubSocket)
    → (register_socket socket poller).sockets ++ sockets ≡ poller.sockets ++ socket ∷ sockets
unfolding register_socket
register_socket-sockets socket poller sockets = append_assoc poller.sockets (socket ∷ []) sockets

register_socket-fake :
    (socket : SubSocket) (poller : Poller) → (register_socket socket poller).fake ≡ poller.fake
unfolding register_socket
register_socket-fake socket poller = refl

register_all-Aligned :
    (sockets : List SubSocket) (poller : Poller)
    → Aligned poller
    → Aligned (register_all sockets poller)
      × ((register_all sockets poller).sockets ≡ poller.sockets ++ sockets)
      × ((register_all sockets poller).fake ≡ poller.fake)
unfolding register_all
register_all-Aligned [] poller a = (a, sym (append-nil poller.sockets), refl)
register_all-Aligned (socket ∷ sockets) poller a =
    let (b, s, f) =
      register_all-Aligned sockets (register_socket socket poller)
        (register_socket-Aligned socket poller a) in
    (b, s ∙ register_socket-sockets socket poller sockets, f ∙ register_socket-fake socket poller)

head-eq : {x y : ℕ} {xs ys : List ℕ} → x ∷ xs ≡ y ∷ ys → x ≡ y
head-eq e = cc

tail-eq : {x y : ℕ} {xs ys : List ℕ} → x ∷ xs ≡ y ∷ ys → xs ≡ ys
tail-eq e = cc

select_sockets-flagged :
    (sockets : List SubSocket) (items : List Item)
    → queues items ≡ socket_queues sockets
    → socket_queues (select_sockets sockets items) ≡ flagged items
unfolding select_sockets
select_sockets-flagged [] [] e = refl
select_sockets-flagged [] (item ∷ items) e = cc
select_sockets-flagged (socket ∷ sockets) [] e = cc
select_sockets-flagged (socket ∷ sockets) (item ∷ items) e =
    let rest = select_sockets-flagged sockets items (tail-eq e) in
    elim (Bool-cases (is_zero item.revents)) [
      | inl quiet_item ↦ rw quiet_item rest
      | inr event ↦ rw event (rw (rest, head-eq e) refl)
    ]

length-flagged : (items : List Item) → length (flagged items) ≡ total weight items
length-flagged [] = refl
length-flagged (item ∷ items) = ground (arith, length-flagged items)

-- A poller made for some sockets, outside the fake mode, and polled: if `Poller::poll` returns, the
-- sockets returned are, in the order of registration, those whose item has an event, and there
-- is none only if a timeout was given.
pub poll_sockets_chooses :
    (os : Os) (world : World) (timeout : ℤ) (sleeps : ℕ) (sockets : List SubSocket) (p : Process)
    {t : List SubSocket × Poller × Process}
    → poll_sockets os world timeout sleeps (new_poller false sockets) p ≡ done t
    → (socket_queues t.0 ≡ flagged t.1.polls)
      × (queues t.1.polls ≡ socket_queues sockets)
      × (t.0 ≡ [] → is_minus_one timeout ≡ false)
unfolding poll_sockets new_poller
poll_sockets_chooses os world timeout sleeps sockets p {t} e =
    let poller : Poller =
      register_all sockets (record { fake = false; sockets = []; polls = [] }) in
    let (a, s, f) =
      register_all-Aligned sockets (record { fake = false; sockets = []; polls = [] }) refl in
    let (x, at_first, g) = >>=-done (poll os world timeout sleeps poller.polls p) _ (
      subst
        (λ b.
          (elim b [
            | true ↦ done (poller.sockets, poller, p)
            | false ↦ poll os world timeout sleeps poller.polls p >>= (λ y.
                done (select_sockets poller.sockets y.1, record poller { polls = y.1 }, y.2))
          ])
          ≡ done t)
        f e) in
    let (_, sum, same, ends) = poll_reports os world timeout sleeps poller.polls p at_first in
    let chosen = select_sockets-flagged poller.sockets x.1 (same ∙ a) in
    subst
      (λ u.
        (socket_queues u.0 ≡ flagged u.1.polls)
        × (queues u.1.polls ≡ socket_queues sockets)
        × (u.0 ≡ [] → is_minus_one timeout ≡ false))
      (done-injective g)
      (
        chosen,
        same ∙ a ∙ ap socket_queues s,
        (λ empty. ends (
            omega
              (arith, sum, length-flagged x.1, ap length (sym chosen ∙ ap socket_queues empty)))),
      )
