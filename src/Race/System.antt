-- ===== src/Race/System.antt =====
-- A publisher and a subscriber of one segment, their steps in any order.
use msgq.Race.Writes.{Writing, begin_send, write_step, idle}
use msgq.Race.Reads.{Reading, Setting, read_step}
use msgq.Queue.{Segment, Msg}
use msgq.Publisher.Steps.{slot}
use msgq.Base.{suc, ◌*◌, ◌^◌, ◌≤◌, ◌<◌, ◌≡◌, ℕ}

pub record System : Type 0 where
  pub segment : Segment
  pub writer : Writing
  pub reader : Reading

-- What a sequence of steps leads to, in which `n` sends begin and the subscriber takes `k` steps: in
-- each the publisher begins a send that its assertion lets through, or goes on with one, or the
-- subscriber goes on with its pass.
pub data Reach (c : Setting) (s : System) : ℕ → ℕ → System → Type 0 where
  start : Reach c s 0 0 s
  begun :
      {n k : ℕ} {t : System}
      → Reach c s n k t
      → (msg : Msg) → t.writer ≡ idle
      → msg.size < 2 ^ 62
      → 3 * slot msg.size ≤ c.size
      → Reach c s (suc n) k (record t { writer = begin_send c.size msg t.segment })
  written :
      {n k : ℕ} {t : System}
      → Reach c s n k t
      → Reach c s n k (record t {
        segment = (write_step t.segment t.writer).0;
        writer = (write_step t.segment t.writer).1;
      })
  read :
      {n k : ℕ} {t : System}
      → Reach c s n k t
      → Reach c s n (suc k) (record t {
        segment = (read_step c t.segment t.reader).0;
        reader = (read_step c t.segment t.reader).1;
      })
