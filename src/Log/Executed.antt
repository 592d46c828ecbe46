-- ===== src/Log/Executed.antt =====
-- src/log_buffer.c: a round of `reader_thread` on a log that stands whole in the ring.
use rdma_middleware.Prelude.{
  ℕ, suc, ◌+◌, ◌≡◌, ◌≢◌, refl, sym, ◌∙◌, false, some, List, [], ◌∷◌, ◌++◌, length, arith, ltb,
}
use rdma_middleware.Queue.{UnQueue, put_queue, pop_queue, top_queue}
use rdma_middleware.Queue.Idle.{IsIdle, Holds, put_queue-Holds}
use rdma_middleware.HashMap.{HashMap}
use rdma_middleware.Log.Geometry.{masked, mate_data_size, rb_count_size, rb_count_size_lem}
use rdma_middleware.Log.Reader.{
  Ptr, null, in_ring, block, LogEntry, Blocks, Receiver, head, tail, unmark_dirty, read_entry,
  read_key, read_keys, ptr_key, next_offset, string_at,
}
use rdma_middleware.Log.Pipeline.{
  entry_at, top_entry, get_key_addr, get_value_addr, read_log_value, top_log, send_log, free_log,
  clean_log,
}
use rdma_middleware.Log.Waiting.{taken, read_log_value-live}
use rdma_middleware.Log.Loops.{execute_logs}
use rdma_middleware.Log.Values.{ValueAt}
use rdma_middleware.Log.Read.{IsLocal}
use rdma_middleware.Log.Values.{value_arrived-ValueAt}
use rdma_middleware.Log.Marks.{IsClear, marked, mark_dirty-clear}
use rdma_middleware.Log.Addresses.{Stands}
use rdma_middleware.Log.Whole.{log_length, LogAt, masked-behind}

-- Empty queues with room, and no key in the dirty map, at a node that reads.
pub record IsIdleReader (r : Receiver) : Type 0 where
  pub pending : IsIdle r.pending
  pub executing : IsIdle r.executing
  pub dirty : IsIdle r.dirty
  pub clear : IsClear r.dirty_map
  pub reads : r.node_class ≢ head

-- The reader after `read_key` of this entry.
abbrev pub keyed : Receiver → LogEntry × Blocks → Receiver
keyed r e = record r {
  blocks = e.1;
  logs = r.logs ++ (some e.0 ∷ []);
  pending = (put_queue r.pending (length r.logs)).0;
  dirty = (put_queue r.dirty (length r.logs)).0;
  dirty_map = marked (ptr_key r.ring.buff e.1) r.dirty_map e.0.key_addr;
}

module _ (r : Receiver) (i : IsIdleReader r) (v : IsLocal r.ring) (pos : ℕ)
    (key value rest : List ℕ) (h : LogAt r.ring pos key value rest) where
  read_key-LogAt :
      (e : LogEntry × Blocks)
      → read_entry r.ring r.blocks pos ≡ some e
      → read_key r pos ≡ some (keyed r e, masked (pos + next_offset e.0) (r.ring.rb.size))
  unfolding read_key
  read_key-LogAt e found =
      let (queued, _) = put_queue-Holds r.pending (length r.logs) i.pending in
      rw
        (found, mark_dirty-clear (ptr_key r.ring.buff e.1) r.dirty_map i.clear e.0.key_addr, queued)
        refl

  pub read_keys-LogAt :
      (limits : ℕ) (e : LogEntry × Blocks)
      → read_entry r.ring r.blocks pos ≡ some e
      → next_offset e.0 ≡ log_length key value
      → read_keys (suc (suc limits)) r pos
        ≡ some (keyed r e, masked (pos + next_offset e.0) (r.ring.rb.size), 1)
  unfolding read_keys
  read_keys-LogAt limits e found long =
      let next : ℕ = masked (pos + next_offset e.0) (r.ring.rb.size) in
      let more : rb_count_size (r.ring.rb) pos ≡ log_length key value =
        rb_count_size_lem (r.ring.rb) v.ring pos h.inside ∙ h.ahead in
      let (next_in, nothing) =
        masked-behind (r.ring.rb) v.ring pos (next_offset e.0) h.inside (h.ahead ∙ sym long) in
      let none_left : rb_count_size (r.ring.rb) next ≡ 0 =
        rb_count_size_lem (r.ring.rb) v.ring next next_in ∙ nothing in
      let some_more : ltb (log_length key value) mate_data_size ≡ false = ground arith in
      rw (more, some_more, read_key-LogAt e found, none_left) refl

top_entry_lem :
    (r : Receiver) (q : UnQueue ℕ) (id : ℕ) (e : LogEntry)
    → top_queue q ≡ some id
    → entry_at r id ≡ some e
    → top_entry r q ≡ some (id, e)
unfolding top_entry
top_entry_lem r q id e top there = rw (top, there) refl

-- The second step: a log that waits for its value, which has come.
module _ (r : Receiver) (id : ℕ) (e : LogEntry) (value : List ℕ) (v : IsLocal r.ring)
    (at : ValueAt r.ring e value) (waits : Holds r.pending id) (room : IsIdle r.executing)
    (there : entry_at r id ≡ some e) where
  pub read_log_value-ValueAt : read_log_value 1 r (r.ring.buff ∷ []) ≡ some (taken r id e, 1)
  read_log_value-ValueAt =
      read_log_value-live r id e (top_entry_lem r r.pending id e waits.top there) waits.some_left
        (put_queue-Holds r.executing id room).0 r.ring.buff [] [] tt
        (value_arrived-ValueAt r.ring v e value at)

by_key_addr :
    (r : Receiver) (e : LogEntry) (p : Ptr)
    → Stands r.blocks p
    → get_key_addr r (record e { key_addr = p }) ≡ p
unfolding get_key_addr
by_key_addr r e null s = absurd s
by_key_addr r e (in_ring pos) s = refl
by_key_addr r e (block b) s = refl

by_value_addr :
    (r : Receiver) (e : LogEntry) (p : Ptr)
    → Stands r.blocks p
    → get_value_addr r (record e { value_addr = p }) ≡ p
unfolding get_value_addr
by_value_addr r e null s = absurd s
by_value_addr r e (in_ring pos) s = refl
by_value_addr r e (block b) s = refl

-- The reader when the log has been passed on, and when it has been released.
abbrev pub passed : Receiver → ℕ → Receiver
passed r id = record r {
  executing = pop_queue r.executing;
  sending = elim (r.node_class) [ tail ↦ r.sending | _ ↦ (put_queue r.sending id).0 ];
}

abbrev pub cleaned : Receiver → ℕ → LogEntry → HashMap Ptr ℕ → Receiver
cleaned r id e m = free_log (record (passed r id) { dirty = pop_queue r.dirty; dirty_map = m }) id e

-- The third step: a log whose value has been taken.
module _ (r : Receiver) (id : ℕ) (e : LogEntry) (exec : Holds r.executing id)
    (dirty : Holds r.dirty id) (there : entry_at r id ≡ some e)
    (value_set : Stands r.blocks e.value_addr) (key_set : Stands r.blocks e.key_addr)
    (m : HashMap Ptr ℕ)
    (unmarked : unmark_dirty (ptr_key r.ring.buff r.blocks) r.dirty_map e.key_addr ≡ some m) where
  top_log-passed : top_log r ≡ some e.value_addr
  unfolding top_log
  top_log-passed =
      rw
        (
          exec.some_left,
          top_entry_lem r r.executing id e exec.top there,
          by_value_addr r e e.value_addr value_set,
        )
        refl

  send_log-passed : send_log r ≡ some (passed r id)
  unfolding send_log
  send_log-passed = rw (exec.some_left, exec.top) refl

  clean_log-passed : clean_log (passed r id) ≡ some (cleaned r id e m)
  unfolding clean_log entry_at
  clean_log-passed =
      rw
        (
          dirty.some_left,
          top_entry_lem (passed r id) r.dirty id e dirty.top there,
          by_key_addr (passed r id) e e.key_addr key_set,
          unmarked,
        )
        refl

  pub execute_logs-one :
      execute_logs 1 r ≡ some (cleaned r id e m, string_at r.ring.buff r.blocks e.value_addr ∷ [])
  unfolding execute_logs
  execute_logs-one = rw (top_log-passed, send_log-passed, clean_log-passed) refl
