-- ===== src/Log/Arrival.antt =====
-- src/log_buffer.c: the tag by which `read_log_value` sees that a value has come.
use rdma_middleware.Prelude.{
  ℕ, ◌+◌, ◌-◌, ◌%◌, ◌<◌, ◌≡◌, ap, sym, ◌∙◌, some, List, ◌++◌, length, get_or, arith,
}
use rdma_middleware.Log.Window.{get_or-window}
use rdma_middleware.Log.Geometry.{masked, masked_lem, entry_size}
use rdma_middleware.Log.Bytes.{entry_bytes, c_string, test_done}
use rdma_middleware.Log.Writer.{Link, rb_write_mate}
use rdma_middleware.Log.Reserve.{IsLink}
use rdma_middleware.Log.Send.{Sent, rb_write_mate-Sent}
use rdma_middleware.Log.Reader.{LogEntry, tag_offset}
use rdma_middleware.Log.Pipeline.{value_arrived}
use rdma_middleware.Log.Delivery.{mate_of, length-mate_of}

-- Until its value is written, an entry of a log whose head `rb_write_mate` has sent counts as arrived
-- exactly if the place of its tag held the tag before, which the tag of an earlier log may do: neither
-- sending the head nor `value_arrived` looks at anything else.
pub value_arrived-rb_write_mate :
    (l l' : Link) (key rest : List ℕ) (value_len p : ℕ) (e : LogEntry)
    → IsLink l
    → length rest ≡ 24
    → 0 < value_len
    → rb_write_mate l (entry_bytes (length key + 1) value_len rest ++ c_string key) value_len
      ≡ (l', some p)
    → e.log_pos ≡ p
    → e.key_length ≡ length key + 1
    → e.value_length ≡ value_len
    → value_arrived (l'.peer) e
      ≡ test_done (
          get_or l.peer.buff
            ((p + (entry_size + (length key + 1)) + (value_len - 1)) % l.rb.size)
            0)
unfolding value_arrived
value_arrived-rb_write_mate l l' key rest value_len p e v wide some_value run at k w =
    let mate : List ℕ = mate_of key value_len rest in
    let len = length-mate_of key value_len rest wide in
    let s : Sent l mate value_len p l' =
      rb_write_mate-Sent l l' mate value_len p v (omega (arith, len)) run in
    let start : ℕ = p + length mate in
    let last : ℕ = value_len - 1 in
    let in_value : last < value_len = omega arith in
    let size : l'.peer.rb.size ≡ l'.rb.size = s.valid.agreed.1 in
    let place : e.log_pos + tag_offset e ≡ start + last = omega (arith, at, k, w, len) in
    let mask : masked (e.log_pos + tag_offset e) (l'.peer.rb.size) ≡ (start + last) % l'.rb.size =
      ap (masked (e.log_pos + tag_offset e)) size
      ∙ masked_lem s.valid.sized (e.log_pos + tag_offset e)
      ∙ ap (λ t. t % l'.rb.size) place in
    let same : get_or l'.peer.buff ((start + last) % l'.rb.size) 0
        ≡ get_or l.peer.buff ((start + last) % l.rb.size) 0 =
      sym (get_or-window (l'.rb.size) l'.peer.buff start value_len last in_value)
      ∙ ap (λ xs. get_or xs last 0) s.reserved
      ∙ get_or-window (l.rb.size) l.peer.buff start value_len last in_value in
    ap (λ t. test_done (get_or l'.peer.buff t 0)) mask
    ∙ ap test_done same
    ∙ ap (λ n. test_done (get_or l.peer.buff ((p + n + last) % l.rb.size) 0)) len
