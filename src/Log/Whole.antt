-- ===== src/Log/Whole.antt =====
-- src/log_buffer.c: a log that stands whole in the ring, its head, key, value and tag behind one
-- another, as the only one not read yet.
use native.Mathlib.Nat.{mod-lt}
use rdma_middleware.Prelude.{
  ℕ, ◌+◌, ◌%◌, ◌^◌, ◌≤◌, ◌<◌, ◌≡◌, ap, sym, ◌∙◌, List, ◌++◌, length, arith,
}
use rdma_middleware.Log.Window.{window-append, length-window, mod_twice}
use rdma_middleware.Log.Geometry.{gap, masked, masked_lem, size_pos, entry_size, IsRing, Ringbuff}
use rdma_middleware.Log.Bytes.{tagged}
use rdma_middleware.Log.Writer.{LocalRingbuff}
use rdma_middleware.Log.Reader.{LogEntry, value_offset}
use rdma_middleware.Log.Read.{filled, ring_window, IsLocal}
use rdma_middleware.Log.Texts.{append_cancel, IsText}
use rdma_middleware.Log.Entries.{HeadAt}
use rdma_middleware.Log.Delivery.{mate_of, length-mate_of}
use rdma_middleware.Log.Values.{ValueAt}

abbrev pub log_length : List ℕ → List ℕ → ℕ
log_length key value = entry_size + (length key + 1) + (length value + 2)

pub record LogAt (r : LocalRingbuff) (pos : ℕ) (key value rest : List ℕ) : Type 0 where
  pub inside : pos ≤ r.rb.size
  pub key_text : IsText key
  pub value_text : IsText value
  pub rest_length : length rest ≡ 24
  pub key_small : length key + 1 < 2 ^ 31
  pub value_small : length value + 2 < 2 ^ 31
  pub held : filled r ≡ log_length key value
  pub ahead : gap (r.rb.size) (r.rb.wr_pointer) pos ≡ log_length key value
  pub bytes :
      ring_window r pos (log_length key value) ≡ mate_of key (length value + 2) rest ++ tagged value

-- Behind the last log there is nothing.
gap-behind :
    (size wr pos n : ℕ)
    → 0 < size
    → wr ≤ size
    → pos ≤ size
    → gap size wr pos ≡ n
    → gap size wr ((pos + n) % size) ≡ 0
gap-behind size wr pos n h hw hp e =
    let near : pos + n < size + size = ground arith in ground (arith, mod_twice (pos + n) size near)

-- The position behind it, as the reader's pointers are moved on.
pub masked-behind :
    (rb : Ringbuff) (v : IsRing rb) (pos n : ℕ)
    → pos ≤ rb.size
    → gap rb.size rb.wr_pointer pos ≡ n
    → (masked (pos + n) rb.size ≤ rb.size)
      × (gap rb.size rb.wr_pointer (masked (pos + n) rb.size) ≡ 0)
masked-behind rb v pos n h e =
    let some_bytes = size_pos v.sized in
    let at = masked_lem v.sized (pos + n) in
    (
      omega (arith, at, mod-lt (pos + n) some_bytes),
      ap (gap rb.size rb.wr_pointer) at
          ∙ gap-behind rb.size rb.wr_pointer pos n some_bytes v.wr_in h e,
    )

module _ (r : LocalRingbuff) (v : IsLocal r) (pos : ℕ) (key value rest : List ℕ)
    (h : LogAt r pos key value rest) where
  abbrev mate : List ℕ
  mate = mate_of key (length value + 2) rest

  parts :
      (ring_window r pos (length mate) ≡ mate)
      × (ring_window r (pos + length mate) (length value + 2) ≡ tagged value)
  parts =
      append_cancel (ring_window r pos (length mate))
        (ring_window r (pos + length mate) (length value + 2)) mate (tagged value)
        (length-window (r.rb.size) r.buff pos (length mate))
        (sym (window-append (r.rb.size) r.buff pos (length mate) (length value + 2))
          ∙ ap (λ n. ring_window r pos (n + (length value + 2)))
              (length-mate_of key (length value + 2) rest h.rest_length)
          ∙ h.bytes)

  pub LogAt-HeadAt : HeadAt r pos (length value + 2) key rest
  LogAt-HeadAt = record {
    inside = h.inside;
    text = h.key_text;
    rest_length = h.rest_length;
    key_small = h.key_small;
    value_small = h.value_small;
    held = omega (arith, h.held);
    bytes =
        ap (ring_window r pos) (sym (length-mate_of key (length value + 2) rest h.rest_length))
        ∙ parts.0;
  }

  pub LogAt-ValueAt :
      (e : LogEntry)
      → e.log_pos ≡ pos
      → e.key_length ≡ length key + 1
      → e.value_length ≡ length value + 2
      → ValueAt r e value
  LogAt-ValueAt e at k w =
      let len = length-mate_of key (length value + 2) rest h.rest_length in
      let place : e.log_pos + value_offset e ≡ pos + length mate = omega (arith, at, k, len) in
      record {
        text = h.value_text;
        value_length = w;
        held = omega (arith, w, h.held);
        bytes = rw (place, w) parts.1;
      }
