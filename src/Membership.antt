-- ===== src/Membership.antt =====
-- Who is subscribed: what `msgq_init_subscriber` of msgq/msgq.cc gives a reader, whatever other
-- threads do meanwhile, and that it gives it.
use msgq.Words.{higher, lower}
use msgq.Subscriber.Joining.{
  evicted, joined, subscribe_claims, subscribe_retries, subscribe_full, init_subscriber_joins,
  init_subscriber_evicts,
}
use msgq.Subscriber.{Handle, subscribe, init_subscriber}
use msgq.Stream.Receiving.{Attached}
use msgq.Stream.{Same}
use msgq.Queue.{done-injective, max_readers, Segment, done}
pub mod Recovery
pub mod Takeover
use native.Mathlib.Decide.{dec_lt, ℕ_discrete}
use msgq.Base.{
  ==_of_ne, ◌≢◌, zero, suc, ◌+◌, ◌%◌, ◌≤◌, ◌<◌, ◌≡◌, refl, sym, ap, ◌∙◌, subst, [], arith,
  update_self, ℕ,
}

-- What every participant keeps: no more readers than slots, and an aligned write pointer.
pub record Sane (s : Segment) : Type 0 where
  pub few : s.num_readers ≤ max_readers
  pub aligned : lower s.write_pointer % 8 ≡ 0

-- A reader that has just subscribed: it holds a slot of the array, the newest one, under this
-- identity, its flag is set, and it has everything still to come and nothing else to receive.
pub record Fresh (uid : ℕ) (h : Handle) : Type 0 where
  pub id : ℕ
  pub in_array : id < max_readers
  pub newest : h.segment.num_readers ≡ id + 1
  pub attached : Attached h id
  pub identity : h.queue.read_uid_local ≡ uid
  pub caught_up : Same h.segment id []

pub joined-Fresh :
    (uid id : ℕ) (h : Handle)
    → id < max_readers
    → lower h.segment.write_pointer % 8 ≡ 0
    → Fresh uid (joined uid id h)
joined-Fresh uid id h small aligned = record {
  id = id;
  in_array = small;
  newest = refl;
  attached = record {
    is_reader = refl;
    owned = sym (update_self h.segment.read_uids id uid);
    valid = λ e. omega (arith, update_self h.segment.read_valids id 1, e);
  };
  identity = refl;
  caught_up = caught_up;
}
  where
    here : (joined uid id h).segment.read_pointers id ≡ h.segment.write_pointer
    here = update_self h.segment.read_pointers id h.segment.write_pointer

    caught_up : Same (joined uid id h).segment id []
    caught_up = record {
      cycles = ap higher here;
      aligned = omega (arith, ap lower here);
      chain = ap lower here;
    }

-- The rounds of `msgq_init_subscriber` behind it, when `k` rounds are left and the segment is `t`: it
-- evicted everyone from a full segment, or another thread moved the counter before it.
pub data Reaches (others : ℕ → Segment → Segment) : ℕ → Segment → ℕ → Segment → Type 0 where
  at_round : {n : ℕ} {s : Segment} → Reaches others n s n s
  evicts :
      {n k : ℕ} {s t : Segment}
      → s.num_readers ≡ max_readers
      → Reaches others n (evicted s) k t
      → Reaches others (suc n) s k t
  outrun :
      {n k : ℕ} {s t : Segment}
      → s.num_readers < max_readers
      → (others n s).num_readers ≢ s.num_readers
      → Reaches others n (others n s) k t
      → Reaches others (suc n) s k t

-- the round that claimed the slot, with the segment at the compare-and-swap
abbrev pub Claimed : (ℕ → Segment → Segment) → ℕ → ℕ → Handle → Handle → Type 0
Claimed others n uid h h' =
    (k : ℕ) × (t : Segment) × Reaches others n h.segment (suc k) t
    × (t.num_readers < max_readers)
    × ((others k t).num_readers ≡ t.num_readers)
    × (h' ≡ joined uid (others k t).num_readers (record h { segment = others k t }))
    × ((i : ℕ) → i < (others k t).num_readers → h'.segment.read_uids i ≡ (others k t).read_uids i)

-- Whatever other threads do to a segment between the rounds, as long as they keep it sane: when
-- `msgq_init_subscriber` ends, there was a round, reached from the start by retries and evictions,
-- in which the counter was at the compare-and-swap what had been loaded, and below the number of
-- slots; from the segment of that moment the reader has taken the slot that the counter named, the
-- next one, and nothing else has changed but the counter, so every listed reader keeps its
-- identity; and the reader is freshly subscribed.
pub subscribe-Fresh :
    (others : ℕ → Segment → Segment) (n uid : ℕ) (h : Handle) {h' : Handle}
    → ((k : ℕ) (s : Segment) → Sane s → Sane (others k s))
    → Sane h.segment
    → subscribe others n uid h ≡ done h'
    → Claimed others n uid h h' × Fresh uid h'
unfolding subscribe
subscribe-Fresh others zero uid h keep sane e = cc
subscribe-Fresh others (suc n) uid h keep sane e = elim (dec_lt h.segment.num_readers max_readers) [
  | no full ↦
      let taken : h.segment.num_readers ≡ max_readers = omega (arith, sane.few) in
      let ((k, t, path, free_slot, unmoved, made, listed), fresh) =
        subscribe-Fresh others n uid (record h { segment = evicted h.segment }) keep
          (record { few = omega arith; aligned = sane.aligned })
          (sym (subscribe_full others n uid h taken) ∙ e) in
      ((k, t, evicts taken path, free_slot, unmoved, made, listed), fresh)
  | yes free ↦
      let next = keep n h.segment sane in
      elim (ℕ_discrete (others n h.segment).num_readers h.segment.num_readers) [
        | no ahead ↦
            let ((k, t, path, free_slot, unmoved, made, listed), fresh) =
              subscribe-Fresh others n uid (record h { segment = others n h.segment }) keep next
                (sym (subscribe_retries others n uid h free ahead) ∙ e) in
            ((k, t, outrun free ahead path, free_slot, unmoved, made, listed), fresh)
        | yes same ↦
            let made = done-injective (sym (subscribe_claims others n uid h free same) ∙ e) in
            let there = record h { segment = others n h.segment } in
            (
              (
                n,
                h.segment,
                at_round,
                free,
                same,
                sym made ∙ ap (λ id. joined uid id there) (sym same),
                λ i below.
                    ap (λ (g : Handle). g.segment.read_uids i) (sym made)
                    ∙ rw (==_of_ne h.segment.num_readers i (omega (arith, below, same))) refl,
              ),
              subst (Fresh uid) made
                  (joined-Fresh uid h.segment.num_readers there free next.aligned),
            )
      ]
]

-- With nobody else acting `msgq_init_subscriber` always ends.
pub init_subscriber_total :
    (uid : ℕ) (h : Handle)
    → Sane h.segment
    → (h' : Handle) × (init_subscriber uid h ≡ done h') × Fresh uid h'
init_subscriber_total uid h sane = elim (dec_lt h.segment.num_readers max_readers) [
  | yes free ↦ (
    _,
    init_subscriber_joins uid h free,
    joined-Fresh uid h.segment.num_readers h free sane.aligned,
  )
  | no full ↦ (
    _,
    init_subscriber_evicts uid h (omega (arith, sane.few)),
    joined-Fresh uid 0 (record h { segment = evicted h.segment }) (omega arith) sane.aligned,
  )
]
