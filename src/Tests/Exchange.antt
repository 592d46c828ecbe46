-- ===== src/Tests/Exchange.antt =====
-- Two messages through two nodes of src/log_buffer.c.
use rdma_middleware.Prelude.{ℕ, ◌≡◌, refl, arith, some, List, [], ◌∷◌, replicate}
use rdma_middleware.Queue.{UnQueue, empty_queue}
use rdma_middleware.Queue.Idle.{IsIdle}
use rdma_middleware.HashMap.{create_hash_map}
use rdma_middleware.Log.Reader.{Ptr, tail}
use rdma_middleware.Log.System.{System}
use rdma_middleware.Log.Loops.{Message, exchange_all}
use rdma_middleware.Log.Marks.{create_hash_map-IsClear}
use rdma_middleware.Log.Sending.{IsMessage}
use rdma_middleware.Log.Exchanged.{IsQuiet, exchange_all-IsQuiet}
use rdma_middleware.Tests.Log.{empty_ring, empty_ring-IsLink}

abbrev empty_slots : UnQueue ℕ
empty_slots = record { len = 3; wid = 2; rid = 2; slots = replicate 4 0 }

empty_slots-IsIdle : IsIdle empty_slots
unfolding empty_queue
empty_slots-IsIdle = record {
  valid = record { wid_in = omega arith; rid_in = omega arith; room = omega arith };
  empty = refl;
  room = omega arith;
}

abbrev quiet : System
quiet = record {
  sender = record {
    link = empty_ring;
    sending = record {
      len = 3;
      wid = 1;
      rid = 1;
      slots = replicate 4 (record { log_pos = 0; key_length = 0; value_length = 0; value = [] });
    };
  };
  receiver = record {
    ring = empty_ring.peer;
    blocks = [];
    logs = [];
    pending = empty_slots;
    executing = empty_slots;
    sending = empty_slots;
    dirty = empty_slots;
    dirty_map = create_hash_map Ptr ℕ (some 1024);
    node_class = tail;
  };
}

quiet-IsQuiet : IsQuiet quiet
unfolding empty_queue
quiet-IsQuiet = record {
  queue = record {
    valid = record { wid_in = omega arith; rid_in = omega arith; room = omega arith };
    empty = refl;
    room = omega arith;
  };
  link = record {
    valid = empty_ring-IsLink;
    on = refl;
    nothing = refl;
    key_in = omega arith;
    all_read = refl;
  };
  shared = refl;
  reader = record {
    pending = empty_slots-IsIdle;
    executing = empty_slots-IsIdle;
    dirty = empty_slots-IsIdle;
    clear = create_hash_map-IsClear 1024 (omega arith) (omega arith);
    reads = λ h. cc;
  };
}

-- The second log goes round the end of the ring.
abbrev pub two_messages : List Message
two_messages =
    record { rest = replicate 24 7; key = 97 ∷ 98 ∷ []; value = 99 ∷ 100 ∷ [] }
    ∷ record { rest = replicate 24 0; key = 101 ∷ []; value = 102 ∷ 103 ∷ 104 ∷ [] }
    ∷ []

pub first_fits : IsMessage 64 (replicate 24 7) (97 ∷ 98 ∷ []) (99 ∷ 100 ∷ [])
first_fits = record {
  key_text = ((λ h. omega (arith, h)), ((λ h. omega (arith, h)), record {}));
  value_text = ((λ h. omega (arith, h)), ((λ h. omega (arith, h)), record {}));
  rest_length = refl;
  key_small = omega arith;
  value_small = omega arith;
  fits = omega arith;
}

pub second_fits : IsMessage 64 (replicate 24 0) (101 ∷ []) (102 ∷ 103 ∷ 104 ∷ [])
second_fits = record {
  key_text = ((λ h. omega (arith, h)), record {});
  value_text =
      ((λ h. omega (arith, h)), ((λ h. omega (arith, h)), ((λ h. omega (arith, h)), record {})));
  rest_length = refl;
  key_small = omega arith;
  value_small = omega arith;
  fits = omega arith;
}

exchange_all-IsQuiet_example :
    (t : System) × (exchange_all quiet two_messages
      ≡ some (t, (99 ∷ 100 ∷ []) ∷ (102 ∷ 103 ∷ 104 ∷ []) ∷ []))
    × IsQuiet t
exchange_all-IsQuiet_example =
    exchange_all-IsQuiet two_messages quiet quiet-IsQuiet (first_fits, (second_fits, record {}))
