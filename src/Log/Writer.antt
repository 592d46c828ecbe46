-- ===== src/Log/Writer.antt =====
-- src/log_buffer.c, the sending side: a node's view of the next node's ring, and the writes into it.
use rdma_middleware.Prelude.{
  ℕ, ◌+◌, ◌-◌, Bool, true, false, Option, some, none, List, ◌++◌, length, take, drop, if◌then◌else◌,
  ltb,
}
use rdma_middleware.Prelude.Memory.{write_at}
use rdma_middleware.Queue.{UnQueue, put_queue, pop_queue, empty_queue, top_queue}
use rdma_middleware.Log.Geometry.{Ringbuff, masked, rb_free_size, entry_size, tag}
use rdma_middleware.Log.Bytes.{entry_bytes, c_string, tagged}

-- `LocalRingbuff` with the memory behind `buff_addr`; `Ringbuff` is its first three fields.
pub record LocalRingbuff : Type 0 where
  pub rb : Ringbuff
  pub buff : List ℕ
  pub rd_key_pointer : ℕ

-- `RemoteRingbuff`, with the ring of the next node that `buff_mate` and `buff` are addresses of.
-- `connected` is what `dhmp_read` and `dhmp_write` find; it stays while one call runs.
pub record Link : Type 0 where
  pub rb : Ringbuff
  pub peer : LocalRingbuff
  pub connected : Bool

-- `dhmp_read(rb->buff_mate, &rb->rd_pointer, sizeof(int), REMOTE_RD_OFFSET, true)`
unfoldable pub read_rd_remote : Link → Link × Bool
read_rd_remote l =
    if l.connected
    then (record l { rb = record (l.rb) { rd_pointer = l.peer.rb.rd_pointer } }, true)
    else (l, false)

unfoldable pub check_remote_size : Link → ℕ → Link × Bool
check_remote_size l wait_write_len =
    let (l', read) = read_rd_remote l in
    if read
    then (l', (if ltb (rb_free_size (l'.rb)) wait_write_len then false else true))
    else (l', false)

-- `dhmp_write(remote_buff->buff, ...)` at an offset into the ring.
unfoldable pub write_buff : Link → ℕ → List ℕ → Link
write_buff l pos src =
    if l.connected
    then record l { peer = record (l.peer) { buff = write_at l.peer.buff pos src } }
    else l

unfoldable pub update_wr_local : Link → ℕ → Link
update_wr_local l p = record l { rb = record (l.rb) { wr_pointer = p } }

unfoldable pub update_wr_remote : Link → Link
update_wr_remote l =
    if l.connected
    then record l {
      peer = record (l.peer) { rb = record (l.peer.rb) { wr_pointer = l.rb.wr_pointer } };
    }
    else l

-- The one or two transfers of a piece of a log to position `pos`.
unfoldable pub write_parts : Link → ℕ → List ℕ → Link
write_parts l pos src =
    if ltb (l.rb.size) (pos + length src)
    then (let left = l.rb.size - pos in
        write_buff (write_buff l pos (take left src)) 0 (drop left src))
    else write_buff l pos src

-- The position behind `len` bytes from `pos` on, as the code leaves it: it may be `size` itself.
unfoldable pub advance : ℕ → ℕ → ℕ → ℕ
advance size pos len = if ltb size (pos + len) then len - (size - pos) else pos + len

-- `rb_write_mate` after its check: the head is sent, the place of the value is skipped, and the
-- reader is told of both at once.
unfoldable pub send_mate : Link → List ℕ → ℕ → Link
send_mate l mate data_len =
    let sent = write_parts l (l.rb.wr_pointer) mate in
    let moved = update_wr_local sent (advance (sent.rb.size) (sent.rb.wr_pointer) (length mate)) in
    update_wr_remote
      (update_wr_local moved (advance (moved.rb.size) (moved.rb.wr_pointer) data_len))

-- `none` is the code's -1.
unfoldable pub rb_write_mate : Link → List ℕ → ℕ → Link × Option ℕ
rb_write_mate l mate data_len =
    let log_pos = l.rb.wr_pointer in
    let (checked, fits) = check_remote_size l (length mate + data_len) in
    if fits then (send_mate checked mate data_len, some log_pos) else (checked, none)

unfoldable pub rb_write_data : Link → List ℕ → ℕ → Link
rb_write_data l src log_pos = write_parts l log_pos src

-- `rb_write`. The first part goes to offset 0 of the ring.
unfoldable pub rb_write : Link → List ℕ → Link × Bool
rb_write l src =
    let (checked, fits) = check_remote_size l (length src) in
    if fits
    then (let pos = checked.rb.wr_pointer in
        if ltb (checked.rb.size) (pos + length src)
        then (let left = checked.rb.size - pos in
            let first = write_buff checked 0 (take left src) in
            let second = write_buff first 0 (drop left src) in
            (update_wr_remote (update_wr_local second (0 + (length src - left))), true))
        else (
          update_wr_remote (update_wr_local (write_buff checked pos src) (pos + length src)),
          true,
        ))
    else (checked, false)

-- A `logEntry` on its way to the next node: its position in the ring, the two lengths, and the bytes
-- at `value_addr`.
pub record Outgoing : Type 0 where
  pub log_pos : ℕ
  pub key_length : ℕ
  pub value_length : ℕ
  pub value : List ℕ

-- The sending threads' state: `remote_buff` and `sending_queue`.
pub record Sender : Type 0 where
  pub link : Link
  pub sending : UnQueue Outgoing

-- `head_node_write_log`. `rest` is what the bytes of the entry behind the two lengths hold.
unfoldable pub head_node_write_log : Sender → List ℕ → List ℕ → List ℕ → Sender × Bool
head_node_write_log s rest key value =
    let key_len = length key + 1 in
    let value_len = length value + 1 + tag in
    let mate = entry_bytes key_len value_len rest ++ c_string key in
    let (checked, fits) = check_remote_size s.link (entry_size + key_len + value_len) in
    if fits
    then (let (sent, log_pos) = rb_write_mate checked mate value_len in
        elim log_pos [
          | none ↦ (record s { link = sent }, false)
          | some p ↦
              (let log : Outgoing = record {
                log_pos = p;
                key_length = key_len;
                value_length = value_len;
                value = tagged value;
              } in
                let (q, queued) = put_queue s.sending log in
                (record { link = sent; sending = q }, queued))
        ])
    else (record s { link = checked }, false)

-- One round of `NIC_thread`, if the queue holds a log.
unfoldable pub nic_step : Sender → Sender
nic_step s = if empty_queue s.sending then s else elim (top_queue s.sending) [
  | none ↦ s
  | some log ↦
      let pos = masked (log.log_pos + (entry_size + log.key_length)) (s.link.rb.size) in
      record { link = rb_write_data s.link log.value pos; sending = pop_queue s.sending }
]
