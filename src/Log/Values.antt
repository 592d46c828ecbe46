-- ===== src/Log/Values.antt =====
-- src/log_buffer.c: the value of a log from `rb_write_data` at one node to `read_log_value` at the next.
use native.Mathlib.Nat.{mod-lt, mod-mod}
use rdma_middleware.Prelude.{
  ℕ, suc, ◌+◌, ◌%◌, ◌≤◌, ◌<◌, ◌≡◌, refl, ap, sym, ◌∙◌, true, Bool-cases, inl, inr, some, List, [],
  ◌∷◌, ◌++◌, length, length-append, get_or, arith, leb,
}
use rdma_middleware.Log.Window.{
  window, length-copy_in, window-append, window_shift, get_or-window, length-window,
}
use rdma_middleware.Log.Geometry.{masked, masked_lem, size_pos, entry_size}
use rdma_middleware.Log.Bytes.{entry_bytes, c_string, tagged, test_done}
use rdma_middleware.Log.Writer.{Link, LocalRingbuff, rb_write_mate, rb_write_data}
use rdma_middleware.Log.Reserve.{IsLink, used, write_parts_lem}
use rdma_middleware.Log.Send.{Sent, rb_write_mate-Sent, rb_write_data-after_mate, peer_window}
use rdma_middleware.Log.Reader.{LogEntry, Blocks, string_at, tag_offset, value_offset}
use rdma_middleware.Log.Pipeline.{value_arrived, locate_value}
use rdma_middleware.Log.Read.{filled, ring_window, IsLocal}
use rdma_middleware.Log.Texts.{append_cancel, IsText, TextAt, string_at-copied, string_at-in_place}
use rdma_middleware.Log.Delivery.{peer-IsLocal, peer-filled, mate_of, length-mate_of}

-- Writing a value changes the bytes of the reader's ring and nothing else.
pub rb_write_data-IsLink :
    (l : Link) (src : List ℕ) (pos : ℕ)
    → IsLink l
    → l.connected ≡ true
    → IsLink (rb_write_data l src pos)
unfolding rb_write_data
rb_write_data-IsLink l src pos v on = rw (write_parts_lem l pos src on) (record {
  sized = v.sized;
  wide = length-copy_in (l.rb.size) l.peer.buff v.wide pos src;
  wr_in = v.wr_in;
  rd_in = v.rd_in;
  agreed = v.agreed;
})

last_of_tagged : (s : List ℕ) → get_or (tagged s) (length s + 1) 0 ≡ 1
last_of_tagged [] = refl
last_of_tagged (b ∷ s) =
    let e : suc (length s) + 1 ≡ suc (length s + 1) = omega arith in rw e (last_of_tagged s)

pub length-tagged : (s : List ℕ) → length (tagged s) ≡ length s + 2
length-tagged s = omega (arith, length-append s (0 ∷ 1 ∷ []))

-- A value with its tag in the ring, at the place that an entry names.
pub record ValueAt (r : LocalRingbuff) (e : LogEntry) (value : List ℕ) : Type 0 where
  pub text : IsText value
  pub value_length : e.value_length ≡ length value + 2
  pub held : e.value_length ≤ filled r
  pub bytes : ring_window r (e.log_pos + value_offset e) (e.value_length) ≡ tagged value

module _ (r : LocalRingbuff) (v : IsLocal r) (e : LogEntry) (value : List ℕ)
    (h : ValueAt r e value) where
  abbrev value_pos : ℕ
  value_pos = (e.log_pos + value_offset e) % r.rb.size

  value_text : TextAt r value_pos (e.value_length) value (1 ∷ [])
  value_text = record {
    inside = mod-lt (e.log_pos + value_offset e) (size_pos v.ring.sized);
    text = h.text;
    held = h.held;
    bytes =
        window_shift (r.rb.size) r.buff value_pos (e.log_pos + value_offset e) (e.value_length)
          (mod-mod (e.log_pos + value_offset e) (r.rb.size))
        ∙ h.bytes;
  }

  -- The tag is seen.
  pub value_arrived-ValueAt : value_arrived r e ≡ true
  unfolding value_arrived test_done
  value_arrived-ValueAt =
      let start : ℕ = e.log_pos + value_offset e in
      let last : ℕ = length value + 1 in
      let in_value : last < e.value_length = omega (arith, h.value_length) in
      let place : e.log_pos + tag_offset e ≡ start + last = omega (arith, h.value_length) in
      let mask : masked (e.log_pos + tag_offset e) (r.rb.size) ≡ (start + last) % r.rb.size =
        masked_lem v.ring.sized (e.log_pos + tag_offset e) ∙ ap (λ t. t % r.rb.size) place in
      let byte : get_or r.buff ((start + last) % r.rb.size) 0 ≡ 1 =
        sym (get_or-window (r.rb.size) r.buff start (e.value_length) last in_value)
        ∙ ap (λ xs. get_or xs last 0) h.bytes
        ∙ last_of_tagged value in
      rw (mask, byte) refl

  -- The address that the entry is given reads as the value.
  pub locate_value-ValueAt :
      (blocks : Blocks)
      → let (e', blocks') = locate_value r blocks e in
        string_at r.buff blocks' (e'.value_addr) ≡ value
  unfolding locate_value
  locate_value-ValueAt blocks =
      let at : masked (e.log_pos + value_offset e) (r.rb.size) ≡ value_pos =
        masked_lem v.ring.sized (e.log_pos + value_offset e) in
      rw at (elim (Bool-cases (leb (r.rb.size) (value_pos + e.value_length))) [
        | inl cut ↦
            rw cut
              (string_at-copied r v value_pos (e.value_length) value (1 ∷ []) value_text blocks)
        | inr near ↦ rw near (
            string_at-in_place r v value_pos (e.value_length) value (1 ∷ []) value_text blocks
              (ground (arith, near)))
      ])

pub both_parts :
    (l l' : Link) (mate value : List ℕ) (p pos : ℕ)
    → IsLink l
    → 0 < length mate
    → rb_write_mate l mate (length value) ≡ (l', some p)
    → pos ≡ (p + length mate) % l'.rb.size
    → let l'' = rb_write_data l' value pos in
      (peer_window l'' p (length mate + length value) ≡ mate ++ value)
      × (used l'' ≡ used l + (length mate + length value))
both_parts l l' mate value p pos v some_bytes run at =
    let (bytes, _, more) = rb_write_data-after_mate l l' mate value p v some_bytes run in
    rw at (bytes, more)

-- A string that is sent behind the head of its log, with its zero and the tag, is in the reader's ring
-- at the place that the reader's entry of this log names.
pub rb_write_data-ValueAt :
    (l l' : Link) (key value rest : List ℕ) (p : ℕ) (e : LogEntry)
    → IsLink l
    → IsText value
    → length rest ≡ 24
    → rb_write_mate l (mate_of key (length value + 2) rest) (length value + 2) ≡ (l', some p)
    → (e.log_pos ≡ p) × (e.key_length ≡ length key + 1) × (e.value_length ≡ length value + 2)
    → let l'' =
        rb_write_data l' (tagged value) ((p + (entry_size + (length key + 1))) % l'.rb.size) in
      IsLocal (l''.peer) × ValueAt (l''.peer) e value
rb_write_data-ValueAt l l' key value rest p e v text wide run (at, k, w) =
    let mate : List ℕ = mate_of key (length value + 2) rest in
    let len : length mate ≡ entry_size + (length key + 1) =
      length-mate_of key (length value + 2) rest wide in
    let long = length-tagged value in
    let sent : rb_write_mate l mate (length (tagged value)) ≡ (l', some p) = rw long run in
    let s : Sent l mate (length (tagged value)) p l' =
      rb_write_mate-Sent l l' mate (length (tagged value)) p v (omega (arith, len)) sent in
    let after = rb_write_data-after_mate l l' mate (tagged value) p v (omega (arith, len)) sent in
    let pos : ℕ = (p + (entry_size + (length key + 1))) % l'.rb.size in
    let l'' : Link = rb_write_data l' (tagged value) pos in
    let here : (p + length mate) % l'.rb.size ≡ pos = ap (λ t. (p + t) % l'.rb.size) len in
    let valid : IsLink l'' = rb_write_data-IsLink l' (tagged value) pos s.valid s.connected in
    let (all, more) =
      both_parts l l' mate (tagged value) p pos v (omega (arith, len)) sent (sym here) in
    let local : IsLocal (l''.peer) = peer-IsLocal l'' valid in
    let size : l''.peer.rb.size ≡ l''.rb.size = valid.agreed.1 in
    let n : ℕ = length (tagged value) in
    let (_, second) =
      append_cancel (window (l''.rb.size) l''.peer.buff p (length mate))
        (window (l''.rb.size) l''.peer.buff (p + length mate) n) mate (tagged value)
        (length-window (l''.rb.size) l''.peer.buff p (length mate))
        (sym (window-append (l''.rb.size) l''.peer.buff p (length mate) n) ∙ all) in
    let place : e.log_pos + value_offset e ≡ p + length mate = omega (arith, at, k, len) in
    let count : e.value_length ≡ n = omega (arith, w, long) in
    (
      local,
      record {
        text = text;
        value_length = w;
        held = omega (arith, count, more, peer-filled l'' valid);
        bytes = rw (place, count, size) second;
      },
    )

-- When the value of a log whose head `rb_write_mate` has sent is written behind it, as `NIC_thread`
-- does with its zero and the tag, an entry with the position and the lengths of this log counts as
-- arrived, and the address that it is given reads as the value, also where the value goes round the
-- end of the ring; the value has no zero inside.
pub rb_write_data-locate_value :
    (l l' : Link) (key value rest : List ℕ) (p : ℕ) (e : LogEntry) (blocks : Blocks)
    → IsLink l
    → IsText value
    → length rest ≡ 24
    → rb_write_mate l
        (entry_bytes (length key + 1) (length value + 2) rest ++ c_string key)
        (length value + 2)
      ≡ (l', some p)
    → (e.log_pos ≡ p) × (e.key_length ≡ length key + 1) × (e.value_length ≡ length value + 2)
    → let l'' =
        rb_write_data l' (tagged value) ((p + (entry_size + (length key + 1))) % l'.rb.size) in
      let (e', blocks') = locate_value (l''.peer) blocks e in
      (value_arrived (l''.peer) e ≡ true)
      × (string_at l''.peer.buff blocks' (e'.value_addr) ≡ value)
rb_write_data-locate_value l l' key value rest p e blocks v text wide run of_log =
    let l'' : Link =
      rb_write_data l' (tagged value) ((p + (entry_size + (length key + 1))) % l'.rb.size) in
    let (local, h) = rb_write_data-ValueAt l l' key value rest p e v text wide run of_log in
    (
      value_arrived-ValueAt (l''.peer) local e value h,
      locate_value-ValueAt (l''.peer) local e value h blocks,
    )
