-- ===== src/Log/Texts.antt =====
-- src/log_buffer.c: a C string in the ring, read in its place or from a copy in a block.
use rdma_middleware.Prelude.{
  ℕ, zero, suc, ◌+◌, ◌≤◌, ◌<◌, ◌≡◌, ◌≢◌, refl, ap, sym, ◌∙◌, some, List, [], ◌∷◌, ◌++◌, length,
  get_elem?-last, take, drop, arith, le→ltb_false,
}
use rdma_middleware.Log.Window.{copy_out, copy_out_lem}
use rdma_middleware.Log.Writer.{LocalRingbuff}
use rdma_middleware.Log.Reader.{in_ring, block, Blocks, read_block, until_zero, bytes_at, string_at}
use rdma_middleware.Log.Read.{filled, ring_window, IsLocal, read_block_lem}

pub append_cancel : (a b c d : List ℕ) → length a ≡ length c → a ++ b ≡ c ++ d → (a ≡ c) × (b ≡ d)
append_cancel [] b [] d h e = (refl, e)
append_cancel [] b (y ∷ c) d h e = absurd (omega arith)
append_cancel (x ∷ a) b [] d h e = absurd (omega arith)
append_cancel (x ∷ a) b (y ∷ c) d h e =
    let rest : a ++ b ≡ c ++ d = cc in
    let (same, tail) = append_cancel a b c d (omega arith) rest in
    let first : x ≡ y = cc in (cc, tail)

-- A string without a zero inside.
abbrev pub IsText : List ℕ → Type 0
IsText [] = Unit {0}
IsText (b ∷ s) = (b ≢ 0) × IsText s

until_zero-text : (s rest : List ℕ) → IsText s → until_zero (s ++ (0 ∷ rest)) ≡ s
unfolding until_zero
until_zero-text [] rest h = refl
until_zero-text (b ∷ s) rest h = ground (arith, until_zero-text s rest)

until_zero-take :
    (s rest mem : List ℕ) (n : ℕ) → IsText s → take n mem ≡ s ++ (0 ∷ rest) → until_zero mem ≡ s
unfolding until_zero
until_zero-take [] rest mem zero h e = absurd cc
until_zero-take (a ∷ s) rest mem zero h e = absurd cc
until_zero-take [] rest [] (suc n) h e = absurd cc
until_zero-take (a ∷ s) rest [] (suc n) h e = absurd cc
until_zero-take [] rest (b ∷ mem) (suc n) h e = let same : b ≡ 0 = cc in rw same refl
until_zero-take (a ∷ s) rest (b ∷ mem) (suc n) h e =
    let same : b ≡ a = cc in
    let tail : take n mem ≡ s ++ (0 ∷ rest) = cc in
    rw same (ground (arith, until_zero-take s rest mem n h.1 tail))

string_at-last :
    (buff : List ℕ) (bs : Blocks) (bytes : List ℕ)
    → string_at buff (bs ++ (some bytes ∷ [])) (block (length bs)) ≡ until_zero bytes
unfolding string_at bytes_at
string_at-last buff bs bytes = rw (string_at, bytes_at, get_elem?-last bs (some bytes)) refl

string_at-in_ring :
    (buff : List ℕ) (bs : Blocks) (pos : ℕ)
    → string_at buff bs (in_ring pos) ≡ until_zero (drop pos buff)
unfolding string_at bytes_at
string_at-in_ring buff bs pos = refl

pub copy_out-straight :
    (size : ℕ) (buf : List ℕ) (pos len : ℕ)
    → pos + len ≤ size
    → copy_out size buf pos len ≡ take len (drop pos buf)
unfolding copy_out
copy_out-straight size buf pos len h = rw (le→ltb_false size (pos + len) h) refl

-- A text with its zero, and further bytes, that the ring holds from a position on.
pub record TextAt (r : LocalRingbuff) (pos n : ℕ) (s rest : List ℕ) : Type 0 where
  pub inside : pos < r.rb.size
  pub text : IsText s
  pub held : n ≤ filled r
  pub bytes : ring_window r pos n ≡ s ++ (0 ∷ rest)

module _ (r : LocalRingbuff) (v : IsLocal r) (pos n : ℕ) (s rest : List ℕ)
    (h : TextAt r pos n s rest) (blocks : Blocks) where
  -- Read from a copy in a new block.
  pub string_at-copied :
      string_at r.buff (blocks ++ (some (read_block r pos n) ∷ [])) (block (length blocks)) ≡ s
  string_at-copied =
      string_at-last r.buff blocks (read_block r pos n)
      ∙ ap until_zero (read_block_lem r v pos n (omega (arith, h.inside)) h.held ∙ h.bytes)
      ∙ until_zero-text s rest h.text

  -- Read in its place, before the end of the ring.
  pub string_at-in_place : pos + n < r.rb.size → string_at r.buff blocks (in_ring pos) ≡ s
  string_at-in_place near =
      string_at-in_ring r.buff blocks pos
      ∙ until_zero-take s rest (drop pos r.buff) n h.text (
          sym (copy_out-straight (r.rb.size) r.buff pos n (omega arith))
          ∙ copy_out_lem (r.rb.size) r.buff v.wide pos n (omega arith) (omega arith)
          ∙ h.bytes)
