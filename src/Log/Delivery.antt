-- ===== src/Log/Delivery.antt =====
-- src/log_buffer.c: a log's head from `rb_write_mate` at one node to `read_log_key` at the next.
use rdma_middleware.Prelude.{
  ℕ, ◌+◌, ◌^◌, ◌<◌, ◌≡◌, refl, ap, sym, ◌∙◌, some, List, [], ◌∷◌, ◌++◌, length, length-append,
  arith,
}
use rdma_middleware.Log.Window.{window}
use rdma_middleware.Log.Geometry.{entry_size}
use rdma_middleware.Log.Bytes.{entry_bytes, length-entry_bytes, c_string}
use rdma_middleware.Log.Writer.{Link, rb_write_mate}
use rdma_middleware.Log.Reserve.{IsLink, used}
use rdma_middleware.Log.Send.{Sent, rb_write_mate-Sent}
use rdma_middleware.Log.Reader.{LogEntry, Blocks, read_entry, string_at}
use rdma_middleware.Log.Read.{filled, ring_window, IsLocal}
use rdma_middleware.Log.Texts.{IsText}
use rdma_middleware.Log.Entries.{HeadAt, read_entry-Entered}

pub peer-IsLocal : (l : Link) → IsLink l → IsLocal (l.peer)
peer-IsLocal l v = record {
  ring = record {
    sized = rw v.agreed.1 v.sized;
    wr_in = omega (arith, v.agreed.0, v.agreed.1, v.wr_in);
    rd_in = omega (arith, v.agreed.1, v.rd_in);
  };
  wide = v.wide ∙ sym v.agreed.1;
}

pub peer-filled : (l : Link) → IsLink l → filled (l.peer) ≡ used l
peer-filled l v = rw (v.agreed.0, v.agreed.1) refl

-- The bytes that `head_node_write_log` sends ahead of the value.
abbrev pub mate_of : List ℕ → ℕ → List ℕ → List ℕ
mate_of key value_len rest = entry_bytes (length key + 1) value_len rest ++ c_string key

pub length-mate_of :
    (key : List ℕ) (value_len : ℕ) (rest : List ℕ)
    → length rest ≡ 24
    → length (mate_of key value_len rest) ≡ entry_size + (length key + 1)
length-mate_of key value_len rest h = omega (
  arith,
  length-append (entry_bytes (length key + 1) value_len rest) (c_string key),
  length-append key (0 ∷ []),
  length-entry_bytes (length key + 1) value_len rest,
  h,
)

delivered-HeadAt :
    (l l' : Link) (key rest : List ℕ) (value_len p : ℕ)
    → IsLink l
    → IsText key
    → length rest ≡ 24
    → length key + 1 < 2 ^ 31
    → value_len < 2 ^ 31
    → Sent l (mate_of key value_len rest) value_len p l'
    → HeadAt (l'.peer) p value_len key rest
delivered-HeadAt l l' key rest value_len p v text wide small short s =
    let len : length (mate_of key value_len rest) ≡ entry_size + (length key + 1) =
      length-mate_of key value_len rest wide in
    record {
      inside = omega (arith, s.at.0, s.at.1, s.valid.agreed.1, v.wr_in);
      text = text;
      rest_length = wide;
      key_small = small;
      value_small = short;
      held = omega (arith, s.grown, peer-filled l' s.valid, len);
      bytes =
          ap (ring_window (l'.peer) p) (sym len)
          ∙ ap (λ size. window size l'.peer.buff p (length (mate_of key value_len rest)))
              s.valid.agreed.1
          ∙ s.head;
    }

-- When `rb_write_mate` has sent a log's head and its key, a string shorter than 2^31 - 1, the reader
-- finds at the position that `rb_write_mate` returned an entry with this key and the lengths of key and
-- value, whatever the rest of the head holds, before the value has come.
pub rb_write_mate-read_entry :
    (l l' : Link) (key rest : List ℕ) (value_len p : ℕ)
    → IsLink l
    → IsText key
    → length rest ≡ 24
    → length key + 1 < 2 ^ 31
    → value_len < 2 ^ 31
    → rb_write_mate l (entry_bytes (length key + 1) value_len rest ++ c_string key) value_len
      ≡ (l', some p)
    → (blocks : Blocks)
    → (e : LogEntry × Blocks) × (read_entry (l'.peer) blocks p ≡ some e)
      × ((e.0.key_length ≡ length key + 1)
          × (e.0.value_length ≡ value_len)
          × (e.0.log_pos ≡ p)
          × (string_at l'.peer.buff e.1 (e.0.key_addr) ≡ key))
rb_write_mate-read_entry l l' key rest value_len p v text wide small short run blocks =
    let mate : List ℕ = mate_of key value_len rest in
    let len = length-mate_of key value_len rest wide in
    let s : Sent l mate value_len p l' =
      rb_write_mate-Sent l l' mate value_len p v (omega (arith, len)) run in
    let h : HeadAt (l'.peer) p value_len key rest =
      delivered-HeadAt l l' key rest value_len p v text wide small short s in
    let local : IsLocal (l'.peer) = peer-IsLocal l' s.valid in
    let (e, found, x) = read_entry-Entered (l'.peer) local p value_len key rest h blocks in
    (e, found, (x.key_length, x.value_length, x.log_pos, x.key_read))
