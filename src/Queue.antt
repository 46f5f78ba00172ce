-- ===== src/Queue.antt =====
-- The data of msgq/msgq.h: the header and bytes that all processes share, the handle that each
-- process keeps, messages, and the outcomes of a call.
use Prim.Native.String.{String}
use msgq.Base.{ap, ◌∙◌, ◌≡◌, refl, ℕ, ◌*◌, Bool, List, [], ◌++◌, ◌∷◌, ℤ, length}
use msgq.Words.{lower}
use msgq.Memory.{Memory}

abbrev pub default_segment_size : ℕ
default_segment_size = 1 * 1024 * 1024

abbrev pub max_readers : ℕ
max_readers = 25

-- `msgq_header_t` and the bytes behind it. An array has a cell for each slot below `max_readers`;
-- a flag is a word, false at 0. `signals` records the thread ids that were signalled, in order.
pub record Segment : Type 0 where
  pub num_readers : ℕ
  pub write_pointer : ℕ
  pub write_uid : ℕ
  pub read_pointers : ℕ → ℕ
  pub read_valids : ℕ → ℕ
  pub read_uids : ℕ → ℕ
  pub bytes : Memory
  pub signals : List ℕ

-- `msgq_queue_t`: what a process keeps of its own. The pointers into the mapping are the
-- `Segment` that each function is given.
pub record Queue : Type 0 where
  pub mapped : Bool
  pub size : ℕ
  pub reader_id : ℤ
  pub read_uid_local : ℕ
  pub write_uid_local : ℕ
  pub read_conflate : Bool
  pub endpoint : String

-- `msgq_msg_t`, with the bytes that its pointer reaches.
pub record Msg : Type 0 where
  pub size : ℕ
  pub content : List ℕ

-- A message of just these bytes.
abbrev pub message : List ℕ → Msg
message xs = record { size = length xs; content = xs }

-- How a call ends: it returns, an `assert` fails, or the model's bound on its rounds is met.
pub data Run {ℓ} (A : Type ℓ) : Type ℓ where
  done : A → Run A
  aborted : Run A
  spinning : Run A

-- `thread_signal`: the id is cut to 32 bits by the caller.
unfoldable pub thread_signal : ℕ → Segment → Segment
thread_signal uid s = record s { signals = s.signals ++ lower uid ∷ [] }

infixl 5 ◌>>=◌
abbrev pub ◌>>=◌ {ℓ κ} : {A : Type ℓ} {B : Type κ} → Run A → (A → Run B) → Run B
done a >>= f = f a
aborted >>= f = aborted
spinning >>= f = spinning

pub done-injective {ℓ} : {A : Type ℓ} {a b : A} → done a ≡ done b → a ≡ b
done-injective e = cc

-- A call in several steps that returned: the first step did, and so did the rest.
pub >>=-done {ℓ κ} :
    {A : Type ℓ} {B : Type κ} (m : Run A) (f : A → Run B) {b : B}
    → (m >>= f) ≡ done b
    → (a : A) × (m ≡ done a) × (f a ≡ done b)
>>=-done (done a) f e = (a, refl, e)
>>=-done aborted f e = cc
>>=-done spinning f e = cc

pub >>=-of-done {ℓ κ} :
    {A : Type ℓ} {B : Type κ} (m : Run A) (f : A → Run B) {a : A} {r : Run B}
    → m ≡ done a
    → f a ≡ r
    → (m >>= f) ≡ r
>>=-of-done m f e g = ap (λ n. n >>= f) e ∙ g
