-- ===== src/Fake/Names.antt =====
-- The names of the shared state and of the pipes, of msgq/event.cc: `event_shm_name` and the paths
-- that the constructor of `SocketEventHandle` makes.
use msgq.Words.{u64}
use msgq.Fake.Digits.{
  decimal-injective, hex-injective, length-hex, length-decimal_from, decimal_from-Free, decimal,
  hex, Free, cut_at,
}
use Prim.Native.Nat.{bit_xor}
use msgq.Base.{
  ap, inl, inr, length-append, take_all, ◌*◌, ◌%◌, ◌^◌, ◌<◌, ◌≡◌, refl, sym, ◌∙◌, ◌↔◌, Option, none,
  some, List, [], ◌∷◌, ◌++◌, arith, length, take, codes, ℕ,
}

-- the byte between the parts of a key
abbrev pub separator : ℕ
separator = 0x1f

-- `key`, given the variable OPENPILOT_PREFIX
unfoldable pub event_key : Option (List ℕ) → List ℕ → List ℕ → List ℕ
event_key none identifier endpoint = separator ∷ (identifier ++ separator ∷ endpoint)
event_key (some prefix) identifier endpoint =
    prefix ++ separator ∷ (identifier ++ separator ∷ endpoint)

-- the loop over the key
unfoldable pub hash_key : ℕ → List ℕ → ℕ
hash_key h [] = h
hash_key h (c ∷ key) = hash_key (u64 (bit_xor h (c % 256) * 1099511628211)) key

-- `event_shm_name`; `snprintf` cuts what is longer than its buffer.
unfoldable pub event_shm_name : Option (List ℕ) → List ℕ → List ℕ → List ℕ
event_shm_name prefix endpoint identifier = take 31 (
    codes "/msgq_" ++ hex 16 (hash_key 14695981039346656037 (event_key prefix identifier endpoint)))

-- `EVENT_PATH_MAX`
abbrev pub event_path_max : ℕ
event_path_max = 128

-- `p`, for the process, the counter of its handles, and the purpose
unfoldable pub fifo_path : ℕ → ℕ → ℕ → List ℕ
fifo_path pid counter i =
    codes "/tmp/msgq_event_" ++ (decimal pid ++ b'_' ∷ (decimal counter ++ b'.' ∷ decimal i))

hash_key-lt : (h : ℕ) (key : List ℕ) → h < 2 ^ 64 → hash_key h key < 2 ^ 64
unfolding hash_key
hash_key-lt h [] small = small
hash_key-lt h (c ∷ key) small =
    hash_key-lt (u64 (bit_xor h (c % 256) * 1099511628211)) key (omega arith)

-- the hash of the tuple
abbrev pub event_hash : Option (List ℕ) → List ℕ → List ℕ → ℕ
event_hash prefix endpoint identifier =
    hash_key 14695981039346656037 (event_key prefix identifier endpoint)

-- Nothing of the name is cut.
event_shm_name_lem :
    (prefix : Option (List ℕ)) (endpoint identifier : List ℕ)
    → event_shm_name prefix endpoint identifier
      ≡ codes "/msgq_" ++ hex 16 (event_hash prefix endpoint identifier)
unfolding event_shm_name
event_shm_name_lem prefix endpoint identifier =
    let digits = hex 16 (event_hash prefix endpoint identifier) in
    ap (λ l. codes "/msgq_" ++ l)
      (take_all 25 digits (omega (arith, length-hex 16 (event_hash prefix endpoint identifier))))

-- the prefix that a key stands for
abbrev pub prefix_text : Option (List ℕ) → List ℕ
prefix_text none = []
prefix_text (some prefix) = prefix

event_key_text :
    (o : Option (List ℕ)) (i e : List ℕ)
    → event_key o i e ≡ prefix_text o ++ separator ∷ (i ++ separator ∷ e)
unfolding event_key
event_key_text none i e = refl
event_key_text (some prefix) i e = refl

event_key-injective :
    (p q : Option (List ℕ)) (i j e f : List ℕ)
    → Free separator (prefix_text p)
    → Free separator (prefix_text q)
    → Free separator i
    → Free separator j
    → event_key p i e ≡ event_key q j f
    → (prefix_text p ≡ prefix_text q) × (i ≡ j) × (e ≡ f)
event_key-injective p q i j e f fp fq fi fj same =
    let (one, rest) =
      cut_at separator (prefix_text p) (i ++ separator ∷ e) (prefix_text q) (j ++ separator ∷ f) fp
        fq (sym (event_key_text p i e) ∙ same ∙ event_key_text q j f) in
    let (two, three) = cut_at separator i e j f fi fj rest in (one, two, three)

event_key_parts :
    (p q : Option (List ℕ)) (i j e f : List ℕ)
    → (prefix_text p ≡ prefix_text q) × (i ≡ j) × (e ≡ f)
    → event_key p i e ≡ event_key q j f
event_key_parts p q i j e f (one, two, three) =
    event_key_text p i e ∙ rw (one, two, three) (sym (event_key_text q j f))

-- The name of a state has 22 characters. Two names are the same exactly when the hashes of the keys
-- are, and keys of parts that do not have the separator are the same exactly when the parts are, an
-- unset prefix being an empty one.
pub event_shm_name_tells :
    (p q : Option (List ℕ)) (e f i j : List ℕ)
    → Free separator (prefix_text p)
    → Free separator (prefix_text q)
    → Free separator i
    → Free separator j
    → (length (event_shm_name p e i) ≡ 22)
      × ((event_shm_name p e i ≡ event_shm_name q f j) ↔ (event_hash p e i ≡ event_hash q f j))
      × ((event_key p i e ≡ event_key q j f)
          ↔ ((prefix_text p ≡ prefix_text q) × (i ≡ j) × (e ≡ f)))
event_shm_name_tells p q e f i j fp fq fi fj = (
  rw (event_shm_name_lem p e i) (omega (arith, length-hex 16 (event_hash p e i))),
  (same_hash, λ same. event_shm_name_lem p e i ∙ ap named same ∙ sym (event_shm_name_lem q f j)),
  (event_key-injective p q i j e f fp fq fi fj, event_key_parts p q i j e f),
)
  where
    named : ℕ → List ℕ
    named h = codes "/msgq_" ++ hex 16 h

    same_hash : event_shm_name p e i ≡ event_shm_name q f j → event_hash p e i ≡ event_hash q f j
    same_hash same =
        let full : named (event_hash p e i) ≡ named (event_hash q f j) =
          sym (event_shm_name_lem p e i) ∙ same ∙ event_shm_name_lem q f j in
        hex-injective (event_hash p e i) (event_hash q f j)
          (hash_key-lt _ (event_key p i e) (omega arith))
          (hash_key-lt _ (event_key q j f) (omega arith)) (cc full)

short_path :
    (pid counter i : ℕ)
    → pid < 2 ^ 31
    → counter < 2 ^ 64
    → i < 2
    → length (fifo_path pid counter i) < event_path_max
unfolding fifo_path
short_path pid counter i hp hc hi = omega (
  arith,
  length-append (decimal pid) (b'_' ∷ (decimal counter ++ b'.' ∷ decimal i)),
  length-append (decimal counter) (b'.' ∷ decimal i),
  length-decimal_from 19 9 pid (omega (arith, hp)),
  length-decimal_from 19 19 counter (omega (arith, hc)),
  length-decimal_from 19 0 i (omega (arith, hi)),
)

fifo_path-injective :
    (pid qid counter next i j : ℕ)
    → pid < 2 ^ 31
    → qid < 2 ^ 31
    → counter < 2 ^ 64
    → next < 2 ^ 64
    → i < 2
    → j < 2
    → fifo_path pid counter i ≡ fifo_path qid next j
    → (pid ≡ qid) × (counter ≡ next) × (i ≡ j)
unfolding fifo_path
fifo_path-injective pid qid counter next i j hp hq hc ho hi hj same =
    let tails : decimal pid ++ b'_' ∷ (decimal counter ++ b'.' ∷ decimal i)
        ≡ decimal qid ++ b'_' ∷ (decimal next ++ b'.' ∷ decimal j) =
      cc same in
    let (one, rest) =
      cut_at b'_' (decimal pid) _ (decimal qid) _
        (decimal_from-Free b'_' 19 pid (inr (omega arith)))
        (decimal_from-Free b'_' 19 qid (inr (omega arith))) tails in
    let (two, three) =
      cut_at b'.' (decimal counter) _ (decimal next) _
        (decimal_from-Free b'.' 19 counter (inl (omega arith)))
        (decimal_from-Free b'.' 19 next (inl (omega arith))) rest in
    (
      decimal-injective pid qid (omega (arith, hp)) (omega (arith, hq)) one,
      decimal-injective counter next hc ho two,
      decimal-injective i j (omega (arith, hi)) (omega (arith, hj)) three,
    )

-- The paths of two pipes fit the shared state, for process ids and counters as the system has them,
-- and are the same exactly when the process, the handle and the purpose are.
pub fifo_path_fits :
    (pid qid counter next i j : ℕ)
    → pid < 2 ^ 31
    → qid < 2 ^ 31
    → counter < 2 ^ 64
    → next < 2 ^ 64
    → i < 2
    → j < 2
    → (length (fifo_path pid counter i) < event_path_max)
      × (length (fifo_path qid next j) < event_path_max)
      × ((fifo_path pid counter i ≡ fifo_path qid next j)
          ↔ ((pid ≡ qid) × (counter ≡ next) × (i ≡ j)))
fifo_path_fits pid qid counter next i j hp hq hc ho hi hj = (
  short_path pid counter i hp hc hi,
  short_path qid next j hq ho hj,
  (
    fifo_path-injective pid qid counter next i j hp hq hc ho hi hj,
    λ same. rw (same.0, same.1, same.2) refl,
  ),
)
