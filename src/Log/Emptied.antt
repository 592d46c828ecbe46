-- ===== src/Log/Emptied.antt =====
-- src/log_buffer.c: what a round of `reader_thread` leaves of the one log in the ring.
use rdma_middleware.Prelude.{
  ℕ, ◌+◌, ◌≤◌, ◌<◌, ◌≡◌, ◌≢◌, refl, ap, sym, ◌∙◌, some, List, [], ◌∷◌, ◌++◌, length, length-append,
  get_elem?-last, get_elem?-set, arith,
}
use rdma_middleware.Queue.{pop_queue}
use rdma_middleware.Queue.Idle.{put_queue-Holds}
use rdma_middleware.HashMap.{HashMap}
use rdma_middleware.HashMap.Text.{string_key}
use rdma_middleware.Log.Geometry.{masked, gap}
use rdma_middleware.Log.Writer.{LocalRingbuff}
use rdma_middleware.Log.Reader.{
  Ptr, LogEntry, Blocks, NodeClass, head, normal, tail, Receiver, read_entry, read_log_key, ptr_key,
  unmark_dirty, next_offset, string_at,
}
use rdma_middleware.Log.Pipeline.{entry_at, locate_value, free_log, read_log_value}
use rdma_middleware.Log.Waiting.{taken}
use rdma_middleware.Log.Loops.{reader_round}
use rdma_middleware.Log.Read.{filled, IsLocal}
use rdma_middleware.Log.Entries.{Entered, read_entry-Entered}
use rdma_middleware.Log.Values.{ValueAt, locate_value-ValueAt}
use rdma_middleware.Log.Marks.{IsClear, unmark_dirty-marked}
use rdma_middleware.Log.Addresses.{
  Stands, string_at-append, Stands-append, read_entry-Stands, Located, locate_value-Located,
}
use rdma_middleware.Log.Whole.{log_length, LogAt, LogAt-HeadAt, LogAt-ValueAt, masked-behind}
use rdma_middleware.Log.Executed.{
  IsIdleReader, keyed, passed, cleaned, read_keys-LogAt, read_log_value-ValueAt, execute_logs-one,
}

-- The reader with everything read and released, and the ring's memory as it was.
pub record Emptied (r r' : Receiver) : Type 0 where
  pub idle : IsIdleReader r'
  pub local : IsLocal r'.ring
  pub ring :
      (r'.ring.buff ≡ r.ring.buff)
      × (r'.ring.rb.wr_pointer ≡ r.ring.rb.wr_pointer)
      × (r'.ring.rb.size ≡ r.ring.rb.size)
  pub released : filled r'.ring ≡ 0
  pub key_in : r'.ring.rd_key_pointer ≤ r'.ring.rb.size
  pub all_read : gap (r'.ring.rb.size) (r'.ring.rb.wr_pointer) (r'.ring.rd_key_pointer) ≡ 0

-- The ring with the pointer of `read_log_key` at another place.
abbrev turned : LocalRingbuff → ℕ → LocalRingbuff
turned r k = record r { rd_key_pointer = k }

turned-IsLocal : (r : LocalRingbuff) (k : ℕ) → IsLocal r → IsLocal (turned r k)
turned-IsLocal r k v = record {
  ring = record { sized = v.ring.sized; wr_in = v.ring.wr_in; rd_in = v.ring.rd_in };
  wide = v.wide;
}

turned-ValueAt :
    (r : LocalRingbuff) (k : ℕ) (e : LogEntry) (value : List ℕ)
    → ValueAt r e value
    → ValueAt (turned r k) e value
turned-ValueAt r k e value h = record {
  text = h.text;
  value_length = h.value_length;
  held = h.held;
  bytes = h.bytes;
}

free_log-moved :
    (r : Receiver) (id : ℕ) (e : LogEntry)
    → r.node_class ≢ head
    → (free_log r id e).ring.rb.rd_pointer
      ≡ masked (r.ring.rb.rd_pointer + next_offset e) (r.ring.rb.size)
free_log-moved r id e reads = by_class r.node_class reads
  where
    by_class :
        (c : NodeClass)
        → c ≢ head
        → (free_log (record r { node_class = c }) id e).ring.rb.rd_pointer
          ≡ masked (r.ring.rb.rd_pointer + next_offset e) (r.ring.rb.size)
    by_class head h = absurd (h refl)
    by_class normal h = unfold free_log in refl
    by_class tail h = unfold free_log in refl

module _ (r : Receiver) (i : IsIdleReader r) (v : IsLocal r.ring) (key value rest : List ℕ)
    (h : LogAt r.ring r.ring.rd_key_pointer key value rest) where
  abbrev pos : ℕ
  pos = r.ring.rd_key_pointer

  -- The entry of the log, and what is known of it.
  module _ (e : LogEntry × Blocks) (found : read_entry r.ring r.blocks pos ≡ some e)
      (x : Entered r.ring v pos
        (length value + 2)
        key
        rest
        (LogAt-HeadAt r.ring v pos key value rest h)
        e) where
    abbrev id : ℕ
    id = length r.logs

    long : next_offset e.0 ≡ log_length key value
    long = omega (arith, x.key_length, x.value_length)

    abbrev next : ℕ
    next = masked (pos + next_offset e.0) (r.ring.rb.size)

    abbrev r1 : Receiver
    r1 = record (keyed r e) { ring = turned r.ring next }

    first : read_log_key 1024 r ≡ some (r1, 1)
    unfolding read_log_key
    first = rw (read_keys-LogAt r i v pos key value rest h 1022 e found long) refl

    at : ValueAt r1.ring e.0 value
    at =
        turned-ValueAt r.ring next e.0 value
          (LogAt-ValueAt r.ring v pos key value rest h e.0 x.log_pos x.key_length x.value_length)

    there1 : entry_at r1 id ≡ some e.0
    unfolding entry_at
    there1 = rw (get_elem?-last r.logs (some e.0)) refl

    abbrev r2 : Receiver
    r2 = taken r1 id e.0

    second : read_log_value 1 r1 (r1.ring.buff ∷ []) ≡ some (r2, 1)
    second =
        read_log_value-ValueAt r1 id e.0 value (turned-IsLocal r.ring next v) at
          (put_queue-Holds r.pending id i.pending).1 i.executing there1

    abbrev located : LogEntry × Blocks
    located = locate_value r1.ring e.1 e.0

    there2 : entry_at r2 id ≡ some located.0
    unfolding entry_at
    there2 =
        let in_logs : id < length (r.logs ++ (some e.0 ∷ [])) =
          omega (arith, length-append r.logs (some e.0 ∷ [])) in
        rw (get_elem?-set (r.logs ++ (some e.0 ∷ [])) id id (some located.0) in_logs) (ground arith)

    loc : Located e.1 e.0 located
    loc = locate_value-Located r1.ring e.1 e.0

    key_there : Stands e.1 e.0.key_addr
    key_there = read_entry-Stands r.ring r.blocks pos e found

    key_stays :
        string_at r.ring.buff located.1 e.0.key_addr ≡ string_at r.ring.buff e.1 e.0.key_addr
    key_stays = rw loc.added (string_at-append r.ring.buff e.1 loc.more e.0.key_addr key_there)

    unmarked :
        (m : HashMap Ptr ℕ) × (unmark_dirty
            (ptr_key r.ring.buff located.1)
            r1.dirty_map
            e.0.key_addr
          ≡ some m)
        × IsClear m
    unmarked =
        unmark_dirty-marked (ptr_key r.ring.buff e.1) (ptr_key r.ring.buff located.1) r.dirty_map
          e.0.key_addr i.clear
          (unfold ptr_key in ap (string_key.hash r.dirty_map.list_size) key_stays)

    read_value : string_at r.ring.buff located.1 located.0.value_addr ≡ value
    read_value = locate_value-ValueAt r1.ring (turned-IsLocal r.ring next v) e.0 value at e.1

    emptied : (m : HashMap Ptr ℕ) → IsClear m → Emptied r (cleaned r2 id located.0 m)
    unfolding free_log
    emptied m clear =
        let last : ℕ = masked (r.ring.rb.rd_pointer + next_offset located.0) (r.ring.rb.size) in
        let rd : (cleaned r2 id located.0 m).ring.rb.rd_pointer ≡ last =
          free_log-moved (record (passed r2 id) { dirty = pop_queue r2.dirty; dirty_map = m }) id
            located.0 i.reads in
        let (last_in, released) =
          masked-behind (r.ring.rb) v.ring (r.ring.rb.rd_pointer) (next_offset located.0)
            v.ring.rd_in (omega (arith, h.held, long, loc.same_length)) in
        let (next_in, all_read) =
          masked-behind (r.ring.rb) v.ring pos (next_offset e.0) h.inside (h.ahead ∙ sym long) in
        record {
          idle = record {
            pending = (put_queue-Holds r.pending id i.pending).1.emptied;
            executing = (put_queue-Holds r.executing id i.executing).1.emptied;
            dirty = (put_queue-Holds r.dirty id i.dirty).1.emptied;
            clear = clear;
            reads = i.reads;
          };
          local = record {
            ring = record { sized = v.ring.sized; wr_in = v.ring.wr_in; rd_in = rw rd last_in };
            wide = v.wide;
          };
          ring = (refl, refl, refl);
          released = rw rd released;
          key_in = next_in;
          all_read = all_read;
        }

    round :
        (r' : Receiver) × (reader_round r (r.ring.buff ∷ []) ≡ some (r', value ∷ [])) × Emptied r r'
    unfolding reader_round
    round =
        let (m, gone, clear) = unmarked in
        let gone' : unmark_dirty (ptr_key r2.ring.buff r2.blocks) r2.dirty_map located.0.key_addr
            ≡ some m =
          rw loc.same_key gone in
        let key_there' : Stands r2.blocks located.0.key_addr =
          rw (loc.same_key, loc.added) (Stands-append e.1 loc.more e.0.key_addr key_there) in
        let exec = (put_queue-Holds r.executing id i.executing).1 in
        let dirty = (put_queue-Holds r.dirty id i.dirty).1 in
        let third =
          execute_logs-one r2 id located.0 exec dirty there2 loc.value_stands key_there' m gone' in
        (cleaned r2 id located.0 m, rw (first, second, third, read_value) refl, emptied m clear)

-- When a log stands whole in the ring, alone and where `read_log_key` goes on, and the reading node's
-- queues are empty and have room, a round of `reader_thread` logs its value, also where key or value go
-- round the end of the ring, and leaves the node as it was: all read and released, with empty queues and
-- no dirty key.
pub reader_round-LogAt :
    (r : Receiver) (key value rest : List ℕ)
    → IsIdleReader r
    → IsLocal r.ring
    → LogAt r.ring r.ring.rd_key_pointer key value rest
    → (r' : Receiver) × (reader_round r (r.ring.buff ∷ []) ≡ some (r', value ∷ [])) × Emptied r r'
reader_round-LogAt r key value rest i v h =
    let (e, found, x) =
      read_entry-Entered r.ring v r.ring.rd_key_pointer (length value + 2) key rest
        (LogAt-HeadAt r.ring v r.ring.rd_key_pointer key value rest h) r.blocks in
    round r i v key value rest h e found x
