-- ===== src/Tests/Log.antt =====
-- The ring buffer of src/log_buffer.c on small inputs.
use rdma_middleware.Prelude.{
  ◌&&◌, if◌then◌else◌, ltb, ◌+◌, ◌≡◌, refl, arith, true, false, some, none, replicate, get_or, ◌%◌,
  [], ◌∷◌, ◌++◌,
}
use rdma_middleware.Prelude.Memory.{write_at}
use rdma_middleware.Log.Geometry.{rb_free_size, rb_data_size, masked_sub}
use rdma_middleware.Log.Bytes.{tagged, entry_bytes, int_bytes, test_done}
use rdma_middleware.Log.Reader.{rb_read, read_entry, string_at, LogEntry, Blocks, block, null}
use rdma_middleware.Log.Pipeline.{value_arrived, locate_value}
use rdma_middleware.Log.Values.{rb_write_data-locate_value}
use rdma_middleware.Log.Arrival.{value_arrived-rb_write_mate}
use rdma_middleware.Log.Delivery.{rb_write_mate-read_entry}
use rdma_middleware.Log.Read.{IsLocal, Consumed, rb_read-Consumed}
use rdma_middleware.Log.Writer.{
  LocalRingbuff, Link, check_remote_size, read_rd_remote, write_buff, write_parts, advance,
  update_wr_local, update_wr_remote, send_mate, rb_write_mate, rb_write_data,
}
use rdma_middleware.Log.Reserve.{IsLink, used}
use rdma_middleware.Log.Send.{peer_window, rb_write_mate_outcome, rb_write_data-after_mate}

-- A ring of eight bytes, two of them in use, the writer near the end.
abbrev near_end : Link
near_end = record {
  rb = record { wr_pointer = 7; rd_pointer = 5; size = 8 };
  peer = record {
    rb = record { wr_pointer = 7; rd_pointer = 5; size = 8 };
    buff = 0 ∷ 0 ∷ 0 ∷ 0 ∷ 0 ∷ 50 ∷ 60 ∷ 0 ∷ [];
    rd_key_pointer = 5;
  };
  connected = true;
}

near_end-IsLink : IsLink near_end
near_end-IsLink = record {
  sized = record { log = 3; small = omega arith; is_pow = refl };
  wide = refl;
  wr_in = omega arith;
  rd_in = omega arith;
  agreed = (refl, refl);
}

abbrev near_end_sent : Link
near_end_sent = record {
  rb = record { wr_pointer = 3; rd_pointer = 5; size = 8 };
  peer = record {
    rb = record { wr_pointer = 3; rd_pointer = 5; size = 8 };
    buff = 2 ∷ 0 ∷ 0 ∷ 0 ∷ 0 ∷ 50 ∷ 60 ∷ 1 ∷ [];
    rd_key_pointer = 5;
  };
  connected = true;
}

near_end_run : rb_write_mate near_end (1 ∷ 2 ∷ []) 2 ≡ (near_end_sent, some 7)
unfolding rb_write_mate check_remote_size read_rd_remote rb_free_size rb_data_size masked_sub
    send_mate write_parts write_buff write_at update_wr_local update_wr_remote advance
near_end_run = refl

rb_write_mate_outcome_example :
    ((rb_write_mate near_end (1 ∷ 2 ∷ []) 2).1
      ≡ (if near_end.connected && ltb (used near_end + 4) 8 then some 7 else none))
    × ((elim ((rb_write_mate near_end (1 ∷ 2 ∷ []) 2).1) [
      | none ↦ (rb_write_mate near_end (1 ∷ 2 ∷ []) 2).0.peer
      | some p ↦ near_end.peer
    ])
        ≡ near_end.peer)
rb_write_mate_outcome_example = rb_write_mate_outcome near_end (1 ∷ 2 ∷ []) 2 near_end-IsLink

rb_write_data-after_mate_example :
    let l'' = rb_write_data near_end_sent (3 ∷ 1 ∷ []) 1 in
    (peer_window l'' 7 4 ≡ 1 ∷ 2 ∷ 3 ∷ 1 ∷ [])
    × (peer_window l'' 5 2 ≡ 50 ∷ 60 ∷ [])
    × (used l'' ≡ 6)
rb_write_data-after_mate_example =
    rb_write_data-after_mate near_end near_end_sent (1 ∷ 2 ∷ []) (3 ∷ 1 ∷ []) 7 near_end-IsLink
      (omega arith) near_end_run

-- The two bytes that the ring still holds, seen from the reader.
abbrev holding : LocalRingbuff
holding = near_end.peer

holding-IsLocal : IsLocal holding
holding-IsLocal = record {
  ring = record { sized = near_end-IsLink.sized; wr_in = omega arith; rd_in = omega arith };
  wide = refl;
}

rb_read-Consumed_example : Consumed holding holding-IsLocal 2 (rb_read holding true none 2 false)
rb_read-Consumed_example = rb_read-Consumed holding holding-IsLocal 2 (omega arith) (omega arith)

-- An empty ring of the program's size, its pointers near the end.
abbrev pub empty_ring : Link
empty_ring = record {
  rb = record { wr_pointer = 30; rd_pointer = 0; size = 64 };
  peer = record {
    rb = record { wr_pointer = 30; rd_pointer = 30; size = 64 };
    buff = replicate 64 0;
    rd_key_pointer = 30;
  };
  connected = true;
}

pub empty_ring-IsLink : IsLink empty_ring
empty_ring-IsLink = record {
  sized = record { log = 6; small = omega arith; is_pow = refl };
  wide = refl;
  wr_in = omega arith;
  rd_in = omega arith;
  agreed = (refl, refl);
}

-- After the head of a log with the key "ab" and a value of four bytes: the key goes round the end.
abbrev pub cut_key : Link
cut_key = record {
  rb = record { wr_pointer = 5; rd_pointer = 30; size = 64 };
  peer = record {
    rb = record { wr_pointer = 5; rd_pointer = 30; size = 64 };
    buff = replicate 30 0 ++ ((3 ∷ 0 ∷ 0 ∷ 0 ∷ 4 ∷ []) ++ (replicate 27 0 ++ (97 ∷ 98 ∷ [])));
    rd_key_pointer = 30;
  };
  connected = true;
}

cut_key_run :
    rb_write_mate empty_ring (entry_bytes 3 4 (replicate 24 0) ++ (97 ∷ 98 ∷ 0 ∷ [])) 4
    ≡ (cut_key, some 30)
unfolding rb_write_mate check_remote_size read_rd_remote rb_free_size rb_data_size masked_sub
    send_mate write_parts write_buff write_at update_wr_local update_wr_remote advance entry_bytes
    int_bytes
cut_key_run = refl

rb_write_mate-read_entry_example :
    (e : LogEntry × Blocks) × (read_entry (cut_key.peer) [] 30 ≡ some e)
    × ((e.0.key_length ≡ 3)
        × (e.0.value_length ≡ 4)
        × (e.0.log_pos ≡ 30)
        × (string_at cut_key.peer.buff e.1 (e.0.key_addr) ≡ 97 ∷ 98 ∷ []))
rb_write_mate-read_entry_example =
    rb_write_mate-read_entry empty_ring cut_key (97 ∷ 98 ∷ []) (replicate 24 0) 4 30
      empty_ring-IsLink ((λ h. omega (arith, h)), ((λ h. omega (arith, h)), record {})) refl
      (omega arith) (omega arith) cut_key_run []

-- The entry that the reader makes of this log.
abbrev cut_entry : LogEntry
cut_entry = record {
  key_length = 3;
  value_length = 4;
  log_pos = 30;
  key_is_cut = true;
  value_is_cut = false;
  key_addr = block 0;
  value_addr = null;
}

value_arrived-rb_write_mate_example :
    value_arrived (cut_key.peer) cut_entry ≡ test_done (get_or empty_ring.peer.buff (68 % 64) 0)
value_arrived-rb_write_mate_example =
    value_arrived-rb_write_mate empty_ring cut_key (97 ∷ 98 ∷ []) (replicate 24 0) 4 30 cut_entry
      empty_ring-IsLink refl (omega arith) cut_key_run refl refl refl

rb_write_data-locate_value_example :
    let l'' = rb_write_data cut_key (tagged (99 ∷ 100 ∷ [])) ((30 + (32 + 3)) % 64) in
    let (e', blocks') = locate_value (l''.peer) [] cut_entry in
    (value_arrived (l''.peer) cut_entry ≡ true)
    × (string_at l''.peer.buff blocks' (e'.value_addr) ≡ 99 ∷ 100 ∷ [])
rb_write_data-locate_value_example =
    rb_write_data-locate_value empty_ring cut_key (97 ∷ 98 ∷ []) (99 ∷ 100 ∷ []) (replicate 24 0) 30
      cut_entry [] empty_ring-IsLink ((λ h. omega (arith, h)), ((λ h. omega (arith, h)), record {}))
      refl cut_key_run (refl, refl, refl)
