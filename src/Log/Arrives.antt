-- ===== src/Log/Arrives.antt =====
-- src/log_buffer.c: `read_log_value` waits for the tag, and then has the value.
use rdma_middleware.Prelude.{
  ℕ, zero, suc, ◌+◌, ◌%◌, ◌<◌, ◌≡◌, ◌≢◌, refl, ◌∙◌, Option, some, List, [], ◌∷◌, ◌++◌, length,
  get_elem?, get_elem?-set, get_or, arith,
}
use rdma_middleware.Prelude.Results.{◌>>=◌}
use rdma_middleware.Queue.Idle.{IsIdle, Holds, put_queue-Holds}
use rdma_middleware.Log.Geometry.{masked_lem}
use rdma_middleware.Log.Bytes.{test_done}
use rdma_middleware.Log.Reader.{Receiver, LogEntry, tag_offset, string_at}
use rdma_middleware.Log.Pipeline.{entry_at, top_entry, value_arrived, locate_value, read_log_value}
use rdma_middleware.Log.Read.{IsLocal}
use rdma_middleware.Log.Values.{ValueAt, value_arrived-ValueAt, locate_value-ValueAt}
use rdma_middleware.Log.Waiting.{seeing, AreEarly, taken, read_log_value-live}

-- The last byte of the value's place is not the tag in any of these memories.
abbrev pub WithoutTag : ℕ → LogEntry → List (List ℕ) → Type 0
WithoutTag size e [] = Unit {0}
WithoutTag size e (memory ∷ later) =
    (get_or memory ((e.log_pos + tag_offset e) % size) 0 ≢ 1) × WithoutTag size e later

early :
    (r : Receiver) (e : LogEntry) (memory : List ℕ) (before : List (List ℕ))
    → IsLocal (seeing r memory).ring
    → WithoutTag r.ring.rb.size e before
    → AreEarly r e before
unfolding value_arrived test_done
early r e memory [] v h = record {}
early r e memory (m ∷ before) v (h, hs) =
    let at = masked_lem v.ring.sized (e.log_pos + tag_offset e) in
    (rw at (ground (arith, h)), early r e memory before v hs)

in_logs :
    (logs : List (Option LogEntry)) (id : ℕ) (e : LogEntry)
    → (get_elem? logs id >>= λ (o : Option LogEntry). o) ≡ some e
    → id < length logs
in_logs [] id e h = absurd cc
in_logs (x ∷ logs) zero e h = omega arith
in_logs (x ∷ logs) (suc id) e h = omega (arith, in_logs logs id e h)

-- When one log is waiting for its value and none is to be executed, `read_log_value` of one log returns as
-- soon as it finds the value with its zero and the tag at the log's place in the ring, however often the
-- tag was not there before: it has read one value, no log is waiting any more, and the log is the one to be
-- executed, with an address that reads as the value.
pub read_log_value-waiting :
    (r : Receiver) (id : ℕ) (e : LogEntry) (value memory : List ℕ) (before later : List (List ℕ))
    → Holds r.pending id
    → IsIdle r.executing
    → entry_at r id ≡ some e
    → WithoutTag r.ring.rb.size e before
    → IsLocal (seeing r memory).ring
    → ValueAt (seeing r memory).ring e value
    → (t : Receiver) × (e' : LogEntry) × (read_log_value 1 r (before ++ (memory ∷ later))
        ≡ some (t, 1))
      × (top_entry t t.executing ≡ some (id, e'))
      × (string_at t.ring.buff t.blocks e'.value_addr ≡ value)
      × IsIdle t.pending
unfolding entry_at top_entry
read_log_value-waiting r id e value memory before later waits room there none_yet v at =
    let seen : Receiver = seeing r memory in
    let located = locate_value seen.ring seen.blocks e in
    let (queued, holds) = put_queue-Holds r.executing id room in
    let kept : get_elem? (taken seen id e).logs id ≡ some (some located.0) =
      get_elem?-set r.logs id id (some located.0) (in_logs r.logs id e there) ∙ ground arith in
    (
      taken seen id e,
      located.0,
      read_log_value-live r id e (rw (waits.top, there) refl) waits.some_left queued memory before
          later (early r e memory before v none_yet) (value_arrived-ValueAt seen.ring v e value at),
      rw (holds.top, kept) refl,
      locate_value-ValueAt seen.ring v e value at seen.blocks,
      waits.emptied,
    )
