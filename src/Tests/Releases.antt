-- ===== src/Tests/Releases.antt =====
-- The theorems of Fake at inputs: one endpoint, one process, pipes that can be made.
use msgq.Fake.Names.{
  event_key, event_shm_name, event_path_max, fifo_path, event_hash, prefix_text,
  event_shm_name_tells, fifo_path_fits,
}
use msgq.Fake.Handle.{
  Files, Act, map_shared, size_shared, event_state_shm_mmap, open_event_fifo, make_pipe, make_pipes,
  SocketEventHandle, new_handle, opened, closed, truncated, mapped, fifo_made, unlinked,
}
use msgq.Fake.Digits.{decimal_from}
use msgq.Fake.Balance.{Undone, handle-Undone}
use msgq.Base.{
  ◌<◌, ◌≡◌, refl, ◌↔◌, true, false, none, some, List, [], ◌∷◌, arith, length, update, pos, codes, ℕ,
}

event_shm_name_tells_example :
    (length (event_shm_name none (codes "carState") []) ≡ 22)
    × ((event_shm_name none (codes "carState") [] ≡ event_shm_name (some []) (codes "can") [])
        ↔ (event_hash none (codes "carState") [] ≡ event_hash (some []) (codes "can") []))
    × ((event_key none [] (codes "carState") ≡ event_key (some []) [] (codes "can")) ↔ (
        (prefix_text none ≡ prefix_text (some []))
        × (◌≡◌ {A = List ℕ} [] [])
        × (codes "carState" ≡ codes "can")))
event_shm_name_tells_example =
    event_shm_name_tells none (some []) (codes "carState") (codes "can") [] [] tt tt tt tt

fifo_path_fits_example :
    (length (fifo_path 4242 0 0) < event_path_max)
    × (length (fifo_path 4242 0 1) < event_path_max)
    × ((fifo_path 4242 0 0 ≡ fifo_path 4242 0 1)
        ↔ ((◌≡◌ {A = ℕ} 4242 4242) × (◌≡◌ {A = ℕ} 0 0) × (◌≡◌ {A = ℕ} 0 1)))
fifo_path_fits_example =
    fifo_path_fits 4242 4242 0 0 0 1 (omega arith) (omega arith) (omega arith) (omega arith)
      (omega arith) (omega arith)

abbrev pub willing : Files
willing = record {
  open_shared = λ name. pos 5;
  size_of = λ fd. pos 0;
  truncate = λ fd. pos 0;
  map_state = λ fd. some (record { paths = λ i. []; enabled = false });
  make_fifo = λ path. pos 0;
  open_fifo = λ path. pos 6;
  missing = λ path. false;
}

abbrev made : SocketEventHandle
made = record {
  shm_name = codes "/msgq_x";
  state = record {
    paths = update (update (λ i. []) 0 (fifo_path 42 0 0)) 1 (fifo_path 42 0 1);
    enabled = false;
  };
  owns_fifos = true;
  recv_called = pos 6;
  recv_ready = pos 6;
}

abbrev making_it : List Act
making_it =
    opened 5
    ∷ truncated 5
    ∷ mapped
    ∷ closed 5
    ∷ unlinked (fifo_path 42 0 0)
    ∷ fifo_made (fifo_path 42 0 0)
    ∷ unlinked (fifo_path 42 0 1)
    ∷ fifo_made (fifo_path 42 0 1)
    ∷ opened 6
    ∷ opened 6
    ∷ []

makes : new_handle willing 42 0 (codes "/msgq_x") true ≡ (making_it, some made)
unfolding new_handle event_state_shm_mmap size_shared map_shared make_pipes make_pipe
    open_event_fifo fifo_path decimal_from
makes = refl

handle-Undone_example : Undone making_it made
handle-Undone_example = handle-Undone willing 42 0 (codes "/msgq_x") true makes
