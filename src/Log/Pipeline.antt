-- ===== src/Log/Pipeline.antt =====
-- src/log_buffer.c, the receiving side, from the value of a log to its release: `read_log_value`,
-- `top_log`, `send_log`, `clean_log` and `free_log`.
use rdma_middleware.Prelude.{
  ℕ, ◌+◌, ◌-◌, Bool, true, false, ◌||◌, Option, some, none, List, [], ◌∷◌, ◌++◌, length, get_elem?,
  get_or, set, if◌then◌else◌, leb, ◌==◌,
}
use rdma_middleware.Queue.{UnQueue, put_queue, pop_queue, empty_queue, top_queue}
use rdma_middleware.HashMap.{HashMap, ◌>>=◌}
use rdma_middleware.Log.Geometry.{masked, entry_size}
use rdma_middleware.Log.Bytes.{test_done}
use rdma_middleware.Log.Writer.{LocalRingbuff}
use rdma_middleware.Log.Reader.{
  head, tail, Ptr, null, in_ring, block, LogEntry, Blocks, Receiver, read_block, value_offset,
  next_offset, tag_offset, ptr_key, unmark_dirty,
}

-- The entry that a pointer points to; `none` for a freed one.
unfoldable pub entry_at : Receiver → ℕ → Option LogEntry
entry_at r id = get_elem? r.logs id >>= λ (e : Option LogEntry). e

-- The entry at the front of a queue.
unfoldable pub top_entry : Receiver → UnQueue ℕ → Option (ℕ × LogEntry)
top_entry r q = top_queue q >>= λ (id : ℕ). entry_at r id >>= λ (e : LogEntry). some (id, e)

unfoldable pub get_key_addr : Receiver → LogEntry → Ptr
get_key_addr r e = elim (e.key_addr) [
  | null ↦ in_ring (masked (e.log_pos + entry_size) (r.ring.rb.size))
  | p ↦ p
]

unfoldable pub get_value_addr : Receiver → LogEntry → Ptr
get_value_addr r e = elim (e.value_addr) [
  | null ↦ in_ring (masked (e.log_pos + value_offset e) (r.ring.rb.size))
  | p ↦ p
]

-- Whether the last byte of the value is the tag.
unfoldable pub value_arrived : LocalRingbuff → LogEntry → Bool
value_arrived ring e =
    test_done (get_or ring.buff (masked (e.log_pos + tag_offset e) (ring.rb.size)) 0)

-- The entry with the address of its value, which is copied if it runs to the end of the ring.
unfoldable pub locate_value : LocalRingbuff → Blocks → LogEntry → LogEntry × Blocks
locate_value ring blocks e =
    let value_pos = masked (e.log_pos + value_offset e) (ring.rb.size) in
    if leb (ring.rb.size) (value_pos + e.value_length)
    then (
      record e { value_is_cut = true; value_addr = block (length blocks) },
      blocks ++ (some (read_block ring value_pos (e.value_length)) ∷ []),
    )
    else (record e { value_is_cut = false; value_addr = in_ring value_pos }, blocks)

-- One round of the loop of `read_log_value`, `value_peeding_queue` not being empty. The Boolean tells
-- that a value was taken; if its tag is missing the code goes round again.
unfoldable pub read_value : Receiver → Option (Receiver × Bool)
read_value r = top_entry r r.pending >>= λ (t : ℕ × LogEntry).
    let (e, blocks) = locate_value r.ring r.blocks t.1 in
    let (q, queued) = put_queue r.executing t.0 in
    if value_arrived r.ring t.1
    then (if queued
        then some (
          record r {
            blocks = blocks;
            logs = set r.logs t.0 (some e);
            executing = q;
            pending = pop_queue r.pending;
          },
          true,
        )
        else none)
    else some (r, false)

-- `read_log_value`. The list is the ring's memory at the start of each round, as the previous node's
-- writes arrive; `none` at its end means that the loop is still waiting for a tag.
unfoldable pub read_log_value : ℕ → Receiver → List (List ℕ) → Option (Receiver × ℕ)
read_log_value limits r [] = if empty_queue r.pending || limits == 0 then some (r, 0) else none
read_log_value limits r (memory ∷ later) =
    let round =
      read_value (record r { ring = record (r.ring) { buff = memory } })
      >>= λ (s : Receiver × Bool). elim s.1 [
        | false ↦ read_log_value limits s.0 later
        | true ↦ read_log_value (limits - 1) s.0 later >>= λ (t : Receiver × ℕ). some (t.0, t.1 + 1)
      ] in
    if empty_queue r.pending || limits == 0 then some (r, 0) else round

-- The value of the next log to execute; NULL if there is none.
unfoldable pub top_log : Receiver → Option Ptr
top_log r =
    if empty_queue r.executing
    then some null
    else (top_entry r r.executing >>= λ (t : ℕ × LogEntry). some (get_value_addr r t.1))

-- The log passes from `executing_queue` to `sending_queue`, on the tail node to none.
unfoldable pub send_log : Receiver → Option Receiver
send_log r =
    if empty_queue r.executing
    then some r
    else (top_queue r.executing >>= λ (id : ℕ). some (record r {
      executing = pop_queue r.executing;
      sending = elim (r.node_class) [ tail ↦ r.sending | _ ↦ (put_queue r.sending id).0 ];
    }))

-- `free` of a block that an entry owns.
unfoldable pub free_block : Blocks → Bool → Ptr → Blocks
free_block blocks cut null = blocks
free_block blocks cut (in_ring p) = blocks
free_block blocks cut (block i) = if cut then set blocks i none else blocks

unfoldable pub free_log : Receiver → ℕ → LogEntry → Receiver
free_log r id e =
    let rd : ℕ = elim (r.node_class) [
      | head ↦ r.ring.rb.rd_pointer
      | _ ↦ masked (r.ring.rb.rd_pointer + next_offset e) (r.ring.rb.size)
    ] in
    record r {
      ring = record (r.ring) { rb = record (r.ring.rb) { rd_pointer = rd } };
      blocks =
          free_block (free_block r.blocks (e.key_is_cut) (e.key_addr)) (e.value_is_cut)
            (e.value_addr);
      logs = set r.logs id none;
    }

unfoldable pub clean_log : Receiver → Option Receiver
clean_log r =
    let cleaned = top_entry r r.dirty >>= λ (t : ℕ × LogEntry).
    unmark_dirty (ptr_key r.ring.buff r.blocks) r.dirty_map (get_key_addr r t.1)
    >>= λ (m : HashMap Ptr ℕ).
        some (free_log (record r { dirty = pop_queue r.dirty; dirty_map = m }) t.0 t.1) in
    if empty_queue r.dirty then some r else cleaned
