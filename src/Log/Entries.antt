-- ===== src/Log/Entries.antt =====
-- src/log_buffer.c: the entry that `read_log_key` builds from a log in the ring.
use native.Mathlib.Nat.{mod-lt, mod-mod}
use rdma_middleware.Prelude.{
  ℕ, ◌+◌, ◌%◌, ◌^◌, ◌≤◌, ◌<◌, ◌≡◌, refl, ap, sym, ◌∙◌, Bool, true, false, Bool-cases, inl, inr,
  some, List, [], ◌∷◌, ◌++◌, length, arith, ltb, leb, lt→ltb,
}
use rdma_middleware.HashMap.{int_limit}
use rdma_middleware.Log.Window.{window-append, window_shift, length-window}
use rdma_middleware.Log.Geometry.{masked, masked_lem, size_pos, entry_size, mate_data_size}
use rdma_middleware.Log.Bytes.{
  int_bytes, int_at, entry_bytes, int_at-entry_bytes, length-entry_bytes, c_string,
}
use rdma_middleware.Log.Writer.{LocalRingbuff}
use rdma_middleware.Log.Reader.{
  Ptr, null, in_ring, block, LogEntry, Blocks, read_block, read_entry, string_at,
}
use rdma_middleware.Log.Read.{filled, ring_window, IsLocal, read_block_lem}
use rdma_middleware.Log.Texts.{append_cancel, IsText, TextAt, string_at-copied, string_at-in_place}

-- A log's head and key in the ring, at a position.
pub record HeadAt (r : LocalRingbuff) (pos value_len : ℕ) (key rest : List ℕ) : Type 0 where
  pub inside : pos ≤ r.rb.size
  pub text : IsText key
  pub rest_length : length rest ≡ 24
  pub key_small : length key + 1 < 2 ^ 31
  pub value_small : value_len < 2 ^ 31
  pub held : entry_size + (length key + 1) ≤ filled r
  pub bytes :
      ring_window r pos (entry_size + (length key + 1))
      ≡ entry_bytes (length key + 1) value_len rest ++ c_string key

entry_bytes-split :
    (k value_len : ℕ) (rest tail : List ℕ)
    → entry_bytes k value_len rest ++ tail ≡ entry_bytes k value_len [] ++ (rest ++ tail)
unfolding entry_bytes int_bytes
entry_bytes-split k value_len rest tail = refl

entry_bytes-nil : (k value_len : ℕ) → entry_bytes k value_len [] ++ [] ≡ entry_bytes k value_len []
unfolding entry_bytes int_bytes
entry_bytes-nil k value_len = refl

module _ (r : LocalRingbuff) (v : IsLocal r) (pos value_len : ℕ) (key rest : List ℕ)
    (h : HeadAt r pos value_len key rest) where
  abbrev key_len : ℕ
  key_len = length key + 1

  abbrev key_pos : ℕ
  key_pos = (pos + entry_size) % r.rb.size

  lengths :
      (int_at (read_block r pos mate_data_size) 0 ≡ key_len)
      × (int_at (read_block r pos mate_data_size) 4 ≡ value_len)
  lengths =
      let size = r.rb.size in
      let more : ℕ = 24 + key_len in
      let whole : ring_window r pos (mate_data_size + more)
          ≡ entry_bytes key_len value_len [] ++ (rest ++ c_string key) =
        ap (ring_window r pos) (omega arith)
        ∙ h.bytes
        ∙ entry_bytes-split key_len value_len rest (c_string key) in
      let (first, _) =
        append_cancel (ring_window r pos mate_data_size) (ring_window r (pos + mate_data_size) more)
          (entry_bytes key_len value_len []) (rest ++ c_string key)
          (omega (
            arith,
            length-window size r.buff pos mate_data_size,
            length-entry_bytes key_len value_len [],
          ))
          (sym (window-append size r.buff pos mate_data_size more) ∙ whole) in
      let read : read_block r pos mate_data_size ≡ entry_bytes key_len value_len [] ++ [] =
        read_block_lem r v pos mate_data_size h.inside (omega (arith, h.held))
        ∙ first
        ∙ sym (entry_bytes-nil key_len value_len) in
      let (k, w) = int_at-entry_bytes key_len value_len [] [] h.key_small h.value_small in
      (ap (λ t. int_at t 0) read ∙ k, ap (λ t. int_at t 4) read ∙ w)

  key_window : ring_window r key_pos key_len ≡ c_string key
  key_window =
      let size = r.rb.size in
      let (_, second) =
        append_cancel (ring_window r pos entry_size) (ring_window r (pos + entry_size) key_len)
          (entry_bytes key_len value_len rest) (c_string key)
          (omega (
            arith,
            length-window size r.buff pos entry_size,
            length-entry_bytes key_len value_len rest,
            h.rest_length,
          ))
          (sym (window-append size r.buff pos entry_size key_len) ∙ h.bytes) in
      window_shift size r.buff key_pos (pos + entry_size) key_len (mod-mod (pos + entry_size) size)
      ∙ second

  key_pos-lt : key_pos < r.rb.size
  key_pos-lt = mod-lt (pos + entry_size) (size_pos v.ring.sized)

  key_at : TextAt r key_pos key_len key []
  key_at = record {
    inside = key_pos-lt;
    text = h.text;
    held = omega (arith, h.held);
    bytes = key_window;
  }

  -- What the entry tells of the log.
  pub record Entered (e : LogEntry × Blocks) : Type 0 where
    pub key_length : e.0.key_length ≡ key_len
    pub value_length : e.0.value_length ≡ value_len
    pub log_pos : e.0.log_pos ≡ pos
    pub key_read : string_at r.buff e.1 (e.0.key_addr) ≡ key

  abbrev entry : Bool → Ptr → LogEntry
  entry cut addr = record {
    key_length = int_at (read_block r pos mate_data_size) 0;
    value_length = int_at (read_block r pos mate_data_size) 4;
    log_pos = pos;
    key_is_cut = cut;
    value_is_cut = false;
    key_addr = addr;
    value_addr = null;
  }

  entry-Entered :
      (cut : Bool) (addr : Ptr) (blocks : Blocks)
      → string_at r.buff blocks addr ≡ key
      → Entered (entry cut addr, blocks)
  entry-Entered cut addr blocks read = record {
    key_length = lengths.0;
    value_length = lengths.1;
    log_pos = refl;
    key_read = read;
  }

  -- From a log's head and key in the ring, both of them held whole, the reader builds an entry with the
  -- lengths and the position of the log, whose key reads as the key that was sent, also where it goes
  -- round the end of the ring.
  pub read_entry-Entered :
      (blocks : Blocks) → (e : LogEntry × Blocks) × (read_entry r blocks pos ≡ some e) × Entered e
  unfolding read_entry
  read_entry-Entered blocks =
      let at : masked (pos + entry_size) (r.rb.size) ≡ key_pos =
        masked_lem v.ring.sized (pos + entry_size) in
      let (k, w) = lengths in
      let short : ltb key_len int_limit ≡ true = lt→ltb key_len int_limit h.key_small in
      let small : ltb value_len int_limit ≡ true = lt→ltb value_len int_limit h.value_small in
      elim (Bool-cases (leb (r.rb.size) (key_pos + key_len))) [
        | inl cut ↦ (
          (
            entry true (block (length blocks)),
            blocks ++ (some (read_block r key_pos key_len) ∷ []),
          ),
          rw (at, k, w, short, small, cut) refl,
          entry-Entered true (block (length blocks)) _
              (string_at-copied r v key_pos key_len key [] key_at blocks),
        )
        | inr near ↦ (
          (entry false (in_ring key_pos), blocks),
          rw (at, k, w, short, small, near) refl,
          entry-Entered false (in_ring key_pos) blocks
              (string_at-in_place r v key_pos key_len key [] key_at blocks (ground (arith, near))),
        )
      ]
