-- ===== src/Log/Waiting.antt =====
-- src/log_buffer.c: `read_log_value` waits until the value of the first log has come.
use rdma_middleware.Prelude.{ℕ, ◌≡◌, refl, true, false, some, List, [], ◌∷◌, ◌++◌, set, arith}
use rdma_middleware.Queue.{put_queue, pop_queue, empty_queue}
use rdma_middleware.Log.Reader.{Receiver, LogEntry}
use rdma_middleware.Log.Pipeline.{
  entry_at, top_entry, value_arrived, locate_value, read_value, read_log_value,
}

-- The reader with this memory in its ring.
abbrev pub seeing : Receiver → List ℕ → Receiver
seeing r memory = record r { ring = record (r.ring) { buff = memory } }

-- No memory of the list has the tag at the entry's place.
abbrev pub AreEarly : Receiver → LogEntry → List (List ℕ) → Type 0
AreEarly r e [] = Unit {0}
AreEarly r e (memory ∷ later) =
    (value_arrived (seeing r memory).ring e ≡ false) × AreEarly r e later

-- The reader when the value has been taken.
abbrev pub taken : Receiver → ℕ → LogEntry → Receiver
taken r id e =
    let (e', blocks') = locate_value r.ring r.blocks e in
    record r {
      blocks = blocks';
      logs = set r.logs id (some e');
      executing = (put_queue r.executing id).0;
      pending = pop_queue r.pending;
    }

stopped : (r : Receiver) (later : List (List ℕ)) → read_log_value 0 r later ≡ some (r, 0)
unfolding read_log_value
stopped r [] = ground arith
stopped r (memory ∷ later) = ground arith

module _ (r : Receiver) (id : ℕ) (e : LogEntry) (top : top_entry r r.pending ≡ some (id, e))
    (waiting : empty_queue r.pending ≡ false) (room : (put_queue r.executing id).1 ≡ true) where
  -- A round that does not find the tag, and one that does.
  missed :
      (memory : List ℕ)
      → value_arrived (seeing r memory).ring e ≡ false
      → read_value (seeing r memory) ≡ some (seeing r memory, false)
  unfolding read_value top_entry entry_at
  missed memory none_yet = rw (top, none_yet) refl

  found :
      (memory : List ℕ)
      → value_arrived (seeing r memory).ring e ≡ true
      → read_value (seeing r memory) ≡ some (taken (seeing r memory) id e, true)
  unfolding read_value top_entry entry_at
  found memory arrived = rw (top, arrived, room) refl

  waited :
      (now memory : List ℕ) (before later : List (List ℕ))
      → AreEarly r e before
      → value_arrived (seeing r memory).ring e ≡ true
      → read_log_value 1 (seeing r now) (before ++ (memory ∷ later))
        ≡ some (taken (seeing r memory) id e, 1)
  unfolding read_log_value
  waited now memory [] later early arrived =
      rw (waiting, found memory arrived, stopped (taken (seeing r memory) id e) later) refl
  waited now memory (m ∷ before) later (none_yet, early) arrived =
      rw (waiting, missed m none_yet) (waited m memory before later early arrived)

  -- When a log is waiting for its value and there is room for it among the logs to execute,
  -- `read_log_value` of one log returns as soon as it finds the tag in the ring's memory, however often
  -- it has looked before, with one value taken: the log has passed on to the logs to execute, with the
  -- address of its value in this memory.
  pub read_log_value-live :
      (memory : List ℕ) (before later : List (List ℕ))
      → AreEarly r e before
      → value_arrived (seeing r memory).ring e ≡ true
      → read_log_value 1 r (before ++ (memory ∷ later)) ≡ some (taken (seeing r memory) id e, 1)
  read_log_value-live memory before later early arrived =
      waited r.ring.buff memory before later early arrived
