-- ===== src/Log/Turns.antt =====
-- src/log_buffer.c: what the calls of the writing threads leave of the link and of `sending_queue`.
use rdma_middleware.Prelude.{
  ℕ, ◌+◌, ◌-◌, take, drop, if-holds, option-holds, ◌≤◌, ◌<◌, ◌≡◌, refl, Bool, false, Bool-cases,
  inl, inr, Option, List, ◌++◌, length, arith, ltb, ltb→lt,
}
use rdma_middleware.Queue.{empty_queue, top_queue}
use rdma_middleware.Queue.Inv.{IsValid, put_queue-IsValid, pop_queue-IsValid}
use rdma_middleware.Log.Window.{length-copy_in, copy_in}
use rdma_middleware.Log.Geometry.{entry_size, tag}
use rdma_middleware.Log.Bytes.{entry_bytes, c_string}
use rdma_middleware.Log.Writer.{
  Link, Sender, advance, check_remote_size, rb_write_mate, rb_write_data, write_parts, write_buff,
  head_node_write_log, nic_step,
}
use rdma_middleware.Log.Reserve.{
  IsLink, used, sent_link, refreshed, advance-in, check_remote_size_lem, rb_write_mate_lem,
}
use rdma_middleware.Log.Values.{rb_write_data-IsLink}

pub refreshed-IsLink : (l : Link) → IsLink l → IsLink (refreshed l)
refreshed-IsLink l v = record {
  sized = v.sized;
  wide = v.wide;
  wr_in = v.wr_in;
  rd_in = v.rd_in;
  agreed = v.agreed;
}

pub sent_link-IsLink :
    (l : Link) (mate : List ℕ) (d : ℕ)
    → IsLink l
    → used l + (length mate + d) < l.rb.size
    → IsLink (sent_link l (length mate) d (copy_in (l.rb.size) l.peer.buff (l.rb.wr_pointer) mate))
sent_link-IsLink l mate d v h =
    let size = l.rb.size in
    let mid : advance size (l.rb.wr_pointer) (length mate) ≤ size =
      advance-in size (l.rb.wr_pointer) (length mate) v.wr_in (omega arith) in
    record {
      sized = v.sized;
      wide = length-copy_in size l.peer.buff v.wide (l.rb.wr_pointer) mate;
      wr_in = advance-in size (advance size (l.rb.wr_pointer) (length mate)) d mid (omega arith);
      rd_in = v.rd_in;
      agreed = (refl, v.agreed.1);
    }

pub rb_write_mate-IsLink :
    (l : Link) (mate : List ℕ) (d : ℕ) → IsLink l → IsLink (rb_write_mate l mate d).0
rb_write_mate-IsLink l mate d v = rw (rb_write_mate_lem l mate d v) (
    if-holds (λ (t : Link × Option ℕ). IsLink t.0) l.connected _ _
      (λ on.
        if-holds (λ (t : Link × Option ℕ). IsLink t.0)
          (ltb (used l + (length mate + d)) (l.rb.size)) _ _
          (λ fits. sent_link-IsLink l mate d v (ltb→lt _ _ fits)) (λ full. refreshed-IsLink l v))
      (λ off. v))

pub check_remote_size-IsLink : (l : Link) (n : ℕ) → IsLink l → IsLink (check_remote_size l n).0
check_remote_size-IsLink l n v = rw (check_remote_size_lem l n v) (
    if-holds (λ (t : Link × Bool). IsLink t.0) l.connected _ _ (λ on. refreshed-IsLink l v)
      (λ off. v))

write_buff-off :
    (l : Link) (pos : ℕ) (src : List ℕ) → l.connected ≡ false → write_buff l pos src ≡ l
unfolding write_buff
write_buff-off l pos src off = rw off refl

-- A transfer over a broken connection does nothing.
write_parts-off :
    (l : Link) (pos : ℕ) (src : List ℕ) → l.connected ≡ false → write_parts l pos src ≡ l
unfolding write_parts
write_parts-off l pos src off = ground (
  arith,
  write_buff-off l pos src off,
  write_buff-off l pos (take (l.rb.size - pos) src) off,
  write_buff-off l 0 (drop (l.rb.size - pos) src) off,
)

write_data-IsLink :
    (l : Link) (src : List ℕ) (pos : ℕ) → IsLink l → IsLink (rb_write_data l src pos)
unfolding rb_write_data
write_data-IsLink l src pos v = elim (Bool-cases l.connected) [
  | inl on ↦ rb_write_data-IsLink l src pos v on
  | inr off ↦ rw (rb_write_data, write_parts-off l pos src off) v
]

abbrev pub IsSender : Sender → Type 0
IsSender s = IsLink s.link × IsValid s.sending

pub head_node_write_log-IsSender :
    (s : Sender) (rest key value : List ℕ)
    → IsSender s
    → IsSender (head_node_write_log s rest key value).0
unfolding head_node_write_log
head_node_write_log-IsSender s rest key value (v, q) =
    let n : ℕ = entry_size + (length key + 1) + (length value + 1 + tag) in
    let checked : IsLink (check_remote_size s.link n).0 = check_remote_size-IsLink s.link n v in
    let mate : List ℕ =
      entry_bytes (length key + 1) (length value + 1 + tag) rest ++ c_string key in
    let sent = rb_write_mate (check_remote_size s.link n).0 mate (length value + 1 + tag) in
    let link : IsLink sent.0 =
      rb_write_mate-IsLink (check_remote_size s.link n).0 mate (length value + 1 + tag) checked in
    if-holds (λ (t : Sender × Bool). IsSender t.0) (check_remote_size s.link n).1 _ _
      (λ fits.
        option-holds (λ (t : Sender × Bool). IsSender t.0) sent.1 _ _ (link, q)
          (λ p. (link, put_queue-IsValid s.sending _ q)))
      (λ full. (checked, q))

pub nic_step-IsSender : (s : Sender) → IsSender s → IsSender (nic_step s)
unfolding nic_step
nic_step-IsSender s (v, q) =
    if-holds IsSender (empty_queue s.sending) _ _ (λ none_left. (v, q))
      (λ some_left.
        option-holds IsSender (top_queue s.sending) _ _ (v, q)
          (λ log. (write_data-IsLink s.link log.value _ v, pop_queue-IsValid s.sending q)))
