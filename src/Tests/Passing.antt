-- ===== src/Tests/Passing.antt =====
-- A log of src/log_buffer.c at a node in the middle of the chain.
use rdma_middleware.Prelude.{ℕ, ◌≡◌, refl, arith, true, false, some, [], ◌∷◌, ◌++◌, replicate}
use rdma_middleware.Prelude.Memory.{write_at}
use rdma_middleware.Queue.{UnQueue, put_queue, pop_queue, empty_queue, top_queue}
use rdma_middleware.HashMap.{create_hash_map}
use rdma_middleware.Log.Geometry.{masked, masked_sub, rb_count_size}
use rdma_middleware.Log.Writer.{write_buff, write_parts, rb_write_data}
use rdma_middleware.Log.Reader.{
  normal, tail, Ptr, in_ring, LogEntry, Receiver, bytes_at, read_log_key,
}
use rdma_middleware.Log.Pipeline.{entry_at, send_log}
use rdma_middleware.Log.Passing.{
  Middle, value_of, forward, pass_log, send_value, here, next, read_log_key-MiddleReach,
}

-- The key "a" and the value "b" with its zero and the tag, which both stand in the ring.
abbrev whole_log : LogEntry
whole_log = record {
  key_length = 2;
  value_length = 3;
  log_pos = 0;
  key_is_cut = false;
  value_is_cut = false;
  key_addr = in_ring 32;
  value_addr = in_ring 34;
}

abbrev no_logs : UnQueue ℕ
no_logs = record { len = 4; wid = 0; rid = 0; slots = replicate 5 0 }

abbrev one_log : UnQueue ℕ
one_log = record { len = 4; wid = 1; rid = 0; slots = replicate 5 0 }

abbrev executed : Middle
executed = record {
  receiver = record {
    ring = record {
      rb = record { wr_pointer = 37; rd_pointer = 0; size = 64 };
      buff = replicate 32 0 ++ (97 ∷ 0 ∷ 98 ∷ 0 ∷ 1 ∷ replicate 27 0);
      rd_key_pointer = 37;
    };
    blocks = [];
    logs = some whole_log ∷ [];
    pending = no_logs;
    executing = one_log;
    sending = no_logs;
    dirty = one_log;
    dirty_map = create_hash_map Ptr ℕ (some 8);
    node_class = normal;
  };
  onward = record {
    rb = record { wr_pointer = 0; rd_pointer = 0; size = 64 };
    peer = record {
      rb = record { wr_pointer = 0; rd_pointer = 0; size = 64 };
      buff = replicate 64 0;
      rd_key_pointer = 0;
    };
    connected = true;
  };
}

abbrev passed_on : Middle
passed_on = record executed {
  receiver = record (executed.receiver) {
    executing = record one_log { rid = 1 };
    sending = one_log;
  };
}

-- The value has come, and nothing before it.
abbrev forwarded : Middle
forwarded = record executed {
  receiver = record (passed_on.receiver) { sending = record one_log { rid = 1 } };
  onward = record (executed.onward) {
    peer = record (executed.onward.peer) { buff = replicate 34 0 ++ (98 ∷ 0 ∷ 1 ∷ replicate 27 0) };
  };
}

pass_run : send_log executed.receiver ≡ some passed_on.receiver
unfolding send_log empty_queue top_queue pop_queue put_queue
pass_run = refl

forward_run : forward passed_on ≡ some forwarded
unfolding forward empty_queue top_queue pop_queue entry_at value_of bytes_at rb_write_data
    write_parts write_buff write_at masked
forward_run = refl

abbrev behind : Receiver
behind = record (executed.receiver) {
  ring = forwarded.onward.peer;
  logs = [];
  executing = no_logs;
  dirty = no_logs;
  node_class = tail;
}

read_log_key-MiddleReach_example : read_log_key 1024 behind ≡ some (behind, 0)
unfolding rb_count_size masked_sub
read_log_key-MiddleReach_example =
    read_log_key-MiddleReach executed forwarded behind 1024
      (next (next here (pass_log passed_on.receiver pass_run refl)) (send_value forward_run))
      (omega arith) refl
