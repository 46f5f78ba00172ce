-- ===== src/Publisher/Loops.antt =====
-- What the loops of `msgq_init_publisher` and `msgq_msg_send` do to the whole arrays.
use msgq.Base.{
  ◌<◌, false, inr, ==_iff, inl, ◌==◌, append_assoc, Bool-cases, true, append-nil, ◌∷◌, sym, arith,
  ◌&&◌, ltb, ◌++◌, fun_ext, ap, [], Bool, if◌then◌else◌, ◌≡◌, update, List, ℕ, zero, suc,
}
use msgq.Words.{lower}
use msgq.Queue.{Segment, thread_signal}
use msgq.Publisher.{clear_slots, invalidate, notify}

-- the flags after a loop of invalidation over the first `n` slots
abbrev pub masked : (ℕ → Bool) → ℕ → Segment → ℕ → ℕ
masked doomed n s i = if ltb i n && doomed (s.read_pointers i) then 0 else s.read_valids i

-- A loop of invalidation clears exactly the flags of the first `n` slots whose read pointer
-- passes the test, and changes nothing else.
pub invalidate_lem :
    (doomed : ℕ → Bool) (n : ℕ) (s : Segment)
    → invalidate doomed n s ≡ record s { read_valids = masked doomed n s }
unfolding invalidate
invalidate_lem doomed zero s = ap (λ v. record s { read_valids = v }) (fun_ext λ i. ground arith)
invalidate_lem doomed (suc n) s =
    rw (invalidate_lem doomed n s) (elim (Bool-cases (doomed (s.read_pointers n))) [
      | inl e ↦ rw e (ap (λ v. record s { read_valids = v }) (fun_ext λ i. cleared i e))
      | inr e ↦ rw e (ap (λ v. record s { read_valids = v }) (fun_ext λ i. kept i e))
    ])
  where
    cleared :
        (i : ℕ)
        → doomed (s.read_pointers n) ≡ true
        → update (masked doomed n s) n 0 i ≡ masked doomed (suc n) s i
    cleared i e = elim (Bool-cases (n == i)) [
      | inl q ↦ ground (arith, ap s.read_pointers ((==_iff n i).0 q))
      | inr q ↦ ground arith
    ]

    kept :
        (i : ℕ)
        → doomed (s.read_pointers n) ≡ false
        → masked doomed n s i ≡ masked doomed (suc n) s i
    kept i e = elim (Bool-cases (n == i)) [
      | inl q ↦ ground (arith, ap s.read_pointers ((==_iff n i).0 q))
      | inr q ↦ ground arith
    ]

-- the low halves of the first `n` identities, in slot order
abbrev pub thread_ids : (ℕ → ℕ) → ℕ → List ℕ
thread_ids uids zero = []
thread_ids uids (suc n) = thread_ids uids n ++ lower (uids n) ∷ []

-- The last loop of `msgq_msg_send` signals the thread of each of the first `n` slots, in order,
-- and changes nothing else.
pub notify_lem :
    (n : ℕ) (s : Segment)
    → notify n s ≡ record s { signals = s.signals ++ thread_ids s.read_uids n }
unfolding notify thread_signal
notify_lem zero s = ap (λ l. record s { signals = l }) (sym (append-nil s.signals))
notify_lem (suc n) s = rw (notify_lem n s) (
    ap (λ l. record s { signals = l })
      (append_assoc s.signals (thread_ids s.read_uids n) (lower (s.read_uids n) ∷ [])))

-- The first `n` cells of an array are zero, the others as before.
abbrev pub zeroed : ℕ → (ℕ → ℕ) → ℕ → ℕ
zeroed n f i = if ltb i n then 0 else f i

pub update-zeroed : (n : ℕ) (f : ℕ → ℕ) → update (zeroed n f) n 0 ≡ zeroed (suc n) f
update-zeroed n f = fun_ext λ i. ground arith

pub zeroed-lt : (n : ℕ) (f : ℕ → ℕ) (i : ℕ) → i < n → zeroed n f i ≡ 0
zeroed-lt n f i h = ground arith

pub zeroed-at : (n : ℕ) (f : ℕ → ℕ) → zeroed n f n ≡ f n
zeroed-at n f = ground arith

pub clear_slots_lem :
    (n : ℕ) (s : Segment)
    → clear_slots n s
      ≡ record s { read_valids = zeroed n s.read_valids; read_uids = zeroed n s.read_uids }
unfolding clear_slots
clear_slots_lem zero s =
    ap (λ (v : (ℕ → ℕ) × (ℕ → ℕ)). record s { read_valids = v.0; read_uids = v.1 }) (ground arith)
clear_slots_lem (suc n) s =
    rw (clear_slots_lem n s, update-zeroed n s.read_valids, update-zeroed n s.read_uids)
