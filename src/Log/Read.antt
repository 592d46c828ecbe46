-- ===== src/Log/Read.antt =====
-- src/log_buffer.c: `rb_read`, and the log that `read_log_key` finds in the ring.
use rdma_middleware.Prelude.{
  ℕ, ◌+◌, ◌-◌, ◌%◌, ◌≤◌, ◌<◌, ◌≡◌, ap, sym, ◌∙◌, true, false, Bool-cases, inl, inr, Option, some,
  none, List, length, replicate, length-replicate, arith, if◌then◌else◌, ltb, tests, le→ltb_false,
}
use rdma_middleware.Log.Window.{
  copy_in, window, copy_out_lem, length-copy_in, window-copy_in_self, window-copy_in_before,
  window_shift,
}
use rdma_middleware.Log.Geometry.{IsRing, gap, rb_data_size_lem, size_pos}
use rdma_middleware.Log.Writer.{LocalRingbuff, advance}
use rdma_middleware.Log.Reserve.{advance-in, advance-mod}
use rdma_middleware.Log.Send.{back}
use rdma_middleware.Log.Reader.{rb_read, read_block}

-- The bytes between the reader's and the writer's pointer.
abbrev pub filled : LocalRingbuff → ℕ
filled r = gap (r.rb.size) (r.rb.wr_pointer) (r.rb.rd_pointer)

abbrev pub ring_window : LocalRingbuff → ℕ → ℕ → List ℕ
ring_window r pos n = window (r.rb.size) r.buff pos n

pub record IsLocal (r : LocalRingbuff) : Type 0 where
  pub ring : IsRing (r.rb)
  pub wide : length r.buff ≡ r.rb.size

-- Releasing bytes that the ring holds leaves the others.
gap-release :
    (size wr rd len : ℕ)
    → wr ≤ size
    → rd ≤ size
    → len ≤ gap size wr rd
    → gap size wr (advance size rd len) + len ≡ gap size wr rd
unfolding advance
gap-release size wr rd len hw hr h = ground arith

module _ (r : LocalRingbuff) (v : IsLocal r) where
  pub filled-lt : filled r < r.rb.size
  filled-lt = ground (arith, v.ring.wr_in, v.ring.rd_in, size_pos v.ring.sized)

  -- A copy of no more bytes than the ring holds succeeds and changes nothing; of more, it fails.
  rb_read_copy :
      (pos len : ℕ)
      → pos ≤ r.rb.size
      → rb_read r true (some pos) len true
        ≡ (r, (if ltb (filled r) len then none else some (ring_window r pos len)))
  unfolding rb_read
  rb_read_copy pos len hp =
      rw (rb_data_size_lem (r.rb) v.ring) (elim (Bool-cases (ltb (filled r) len)) [
        | inl more ↦ rw more
        | inr enough ↦
            rw
              (enough, copy_out_lem (r.rb.size) r.buff v.wide pos len hp (omega (tests, filled-lt)))
      ])

  pub read_block_lem :
      (pos len : ℕ)
      → pos ≤ r.rb.size
      → len ≤ filled r
      → read_block r pos len ≡ ring_window r pos len
  unfolding read_block
  read_block_lem pos len hp hl =
      rw (rb_read_copy pos len hp, read_block, le→ltb_false (filled r) len hl)

  -- What a reading that releases the bytes leaves behind.
  pub record Consumed (len : ℕ) (s : LocalRingbuff × Option (List ℕ)) : Type 0 where
    pub bytes : s.1 ≡ some (ring_window r (r.rb.rd_pointer) len)
    pub valid : IsLocal s.0
    pub shrunk : filled s.0 + len ≡ filled r
    pub zeroed : window (r.rb.size) s.0.buff (r.rb.rd_pointer) len ≡ replicate len 0
    pub kept :
        window (r.rb.size) s.0.buff (r.rb.rd_pointer + len) (filled s.0)
        ≡ ring_window r (r.rb.rd_pointer + len) (filled s.0)

  -- A reading into a buffer, from the read pointer, that releases no more bytes than the ring holds
  -- succeeds: it returns them, clears their places to zero, and leaves the other bytes that the ring holds.
  pub rb_read-Consumed :
      (len : ℕ) → 0 < len → len ≤ filled r → Consumed len (rb_read r true none len false)
  unfolding rb_read
  rb_read-Consumed len pos hl =
      let size = r.rb.size in
      let rd = r.rb.rd_pointer in
      let short : len < size = omega (arith, filled-lt) in
      let zeros : length (replicate {A = ℕ} len 0) ≡ len = length-replicate {A = ℕ} len 0 in
      let new = copy_in size r.buff rd (replicate len 0) in
      let next = advance size rd len in
      let next_in : next ≤ size = advance-in size rd len v.ring.rd_in (omega arith) in
      let less : gap size (r.rb.wr_pointer) next + len ≡ filled r =
        gap-release size (r.rb.wr_pointer) rd len v.ring.wr_in v.ring.rd_in hl in
      let ahead : next % size ≡ (rd + len) % size =
        advance-mod size rd len (size_pos v.ring.sized) v.ring.rd_in short in
      rw (rb_data_size_lem (r.rb) v.ring, le→ltb_false (filled r) len hl)
        (record {
          bytes = ap some (copy_out_lem size r.buff v.wide rd len v.ring.rd_in (omega arith));
          valid = record {
            ring = record { sized = v.ring.sized; wr_in = v.ring.wr_in; rd_in = next_in };
            wide = length-copy_in size r.buff v.wide rd (replicate len 0);
          };
          shrunk = less;
          zeroed =
              ap (window size new rd) (sym zeros)
              ∙ window-copy_in_self size r.buff v.wide rd (replicate len 0) v.ring.rd_in
                  (omega (arith, zeros));
          kept =
              window_shift size new (rd + len) next _ (sym ahead)
              ∙ window-copy_in_before size r.buff v.wide rd next (size - len) _ (replicate len 0)
                  v.ring.rd_in next_in (omega (arith, less, filled-lt)) (omega arith)
                  (omega (arith, zeros)) (back size rd len v.ring.rd_in pos short)
              ∙ window_shift size r.buff next (rd + len) _ ahead;
        })
