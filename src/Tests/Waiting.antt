-- ===== src/Tests/Waiting.antt =====
-- The reading of values, and of bytes by address, in src/log_buffer.c.
use rdma_middleware.Prelude.{
  ℕ, ◌+◌, ◌-◌, ◌≡◌, refl, arith, false, some, none, List, [], ◌∷◌, ◌++◌, replicate, ltb,
  if◌then◌else◌,
}
use rdma_middleware.Queue.{UnQueue, empty_queue, top_queue, pop_queue}
use rdma_middleware.HashMap.{create_hash_map}
use rdma_middleware.Log.Geometry.{gap}
use rdma_middleware.Log.Writer.{LocalRingbuff}
use rdma_middleware.Log.Reader.{tail, Ptr, null, in_ring, LogEntry, Receiver, string_at}
use rdma_middleware.Log.Pipeline.{entry_at, top_entry, read_log_value}
use rdma_middleware.Log.Waiting.{seeing}
use rdma_middleware.Log.Arrives.{read_log_value-waiting}
use rdma_middleware.Log.Values.{ValueAt}
use rdma_middleware.Queue.Idle.{IsIdle, Holds}
use rdma_middleware.Log.Read.{IsLocal, ring_window}
use rdma_middleware.Log.Chars.{memcpy_buffer, memcpy_buffer_lem}

-- A log at 0 with the key "a" and a value of three bytes, which ends at 36.
abbrev waiting_log : LogEntry
waiting_log = record {
  key_length = 2;
  value_length = 3;
  log_pos = 0;
  key_is_cut = false;
  value_is_cut = false;
  key_addr = in_ring 32;
  value_addr = null;
}

abbrev no_logs : UnQueue ℕ
no_logs = record { len = 4; wid = 0; rid = 0; slots = replicate 5 0 }

abbrev reader : Receiver
reader = record {
  ring = record {
    rb = record { wr_pointer = 37; rd_pointer = 0; size = 64 };
    buff = replicate 64 0;
    rd_key_pointer = 37;
  };
  blocks = [];
  logs = some waiting_log ∷ [];
  pending = record { len = 4; wid = 1; rid = 0; slots = replicate 5 0 };
  executing = no_logs;
  sending = no_logs;
  dirty = no_logs;
  dirty_map = create_hash_map Ptr ℕ (some 8);
  node_class = tail;
}

abbrev arrived : List ℕ
arrived = replicate 34 0 ++ (98 ∷ 0 ∷ 1 ∷ replicate 27 0)

arrived-IsLocal : IsLocal (seeing reader arrived).ring
arrived-IsLocal = record {
  ring = record {
    sized = record { log = 6; small = omega arith; is_pow = refl };
    wr_in = omega arith;
    rd_in = omega arith;
  };
  wide = refl;
}

arrived-ValueAt : ValueAt (seeing reader arrived).ring waiting_log (98 ∷ [])
arrived-ValueAt = record {
  text = (omega arith, record {});
  value_length = refl;
  held = omega arith;
  bytes = refl;
}

waiting-Holds : Holds reader.pending 0
unfolding empty_queue top_queue pop_queue
waiting-Holds = record {
  some_left = refl;
  top = refl;
  emptied = record {
    valid = record { wid_in = omega arith; rid_in = omega arith; room = omega arith };
    empty = refl;
    room = omega arith;
  };
}

no_logs-IsIdle : IsIdle no_logs
unfolding empty_queue
no_logs-IsIdle = record {
  valid = record { wid_in = omega arith; rid_in = omega arith; room = omega arith };
  empty = refl;
  room = omega arith;
}

log_run : entry_at reader 0 ≡ some waiting_log
unfolding entry_at
log_run = refl

-- The second look finds the value "b".
read_log_value-waiting_example :
    (t : Receiver) × (e' : LogEntry) × (read_log_value 1 reader (replicate 64 0 ∷ arrived ∷ [])
      ≡ some (t, 1))
    × (top_entry t t.executing ≡ some (0, e'))
    × (string_at t.ring.buff t.blocks e'.value_addr ≡ 98 ∷ [])
    × IsIdle t.pending
read_log_value-waiting_example =
    read_log_value-waiting reader 0 waiting_log (98 ∷ []) arrived (replicate 64 0 ∷ []) []
      waiting-Holds no_logs-IsIdle log_run (omega arith, record {}) arrived-IsLocal arrived-ValueAt

-- A ring of eight bytes, the reader's three at its end and one at its start.
abbrev round : LocalRingbuff
round = record {
  rb = record { wr_pointer = 2; rd_pointer = 6; size = 8 };
  buff = 1 ∷ 2 ∷ 3 ∷ 4 ∷ 5 ∷ 6 ∷ 7 ∷ 8 ∷ [];
  rd_key_pointer = 6;
}

round-IsLocal : IsLocal round
round-IsLocal = record {
  ring = record {
    sized = record { log = 3; small = omega arith; is_pow = refl };
    wr_in = omega arith;
    rd_in = omega arith;
  };
  wide = refl;
}

memcpy_buffer_lem_example : memcpy_buffer round 6 3 ≡ (
    if ltb (gap 8 2 6) 3
    then none
    else if ltb 8 (6 + 3)
    then some (ring_window round 0 (8 - 6) ++ ring_window round 0 (3 - (8 - 6)))
    else some (ring_window round 6 3))
memcpy_buffer_lem_example = memcpy_buffer_lem round round-IsLocal 6 3 (omega arith)
