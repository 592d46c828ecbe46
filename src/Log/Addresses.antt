-- ===== src/Log/Addresses.antt =====
-- src/log_buffer.c: the addresses that an entry is given, and what later blocks leave of them.
use rdma_middleware.Prelude.{
  ℕ, zero, suc, ◌+◌, ◌<◌, ◌≡◌, refl, sym, Bool-cases, inl, inr, Option, some, List, [], ◌∷◌, ◌++◌,
  length, length-append, append_nil, get_elem?, arith, leb, ltb, ◌&&◌,
}
use rdma_middleware.Prelude.Results.{Returns, Returns-some}
use rdma_middleware.HashMap.{int_limit}
use rdma_middleware.Log.Geometry.{masked, entry_size, mate_data_size}
use rdma_middleware.Log.Bytes.{int_at}
use rdma_middleware.Log.Writer.{LocalRingbuff}
use rdma_middleware.Log.Reader.{
  Ptr, null, in_ring, block, LogEntry, Blocks, read_block, read_entry, string_at, bytes_at,
  value_offset,
}
use rdma_middleware.Log.Pipeline.{locate_value}

-- An address in the ring or in one of the blocks.
abbrev pub Stands : Blocks → Ptr → Type 0
Stands blocks null = ⊥
Stands blocks (in_ring pos) = Unit {0}
Stands blocks (block b) = b < length blocks

get_elem?-append :
    (bs more : Blocks) (i : ℕ) → i < length bs → get_elem? (bs ++ more) i ≡ get_elem? bs i
get_elem?-append [] more i h = absurd (omega arith)
get_elem?-append (b ∷ bs) more zero h = refl
get_elem?-append (b ∷ bs) more (suc i) h = get_elem?-append bs more i (omega arith)

-- A string stays where it is when blocks are added.
pub string_at-append :
    (buff : List ℕ) (bs more : Blocks) (p : Ptr)
    → Stands bs p
    → string_at buff (bs ++ more) p ≡ string_at buff bs p
unfolding string_at bytes_at
string_at-append buff bs more null h = absurd h
string_at-append buff bs more (in_ring pos) h = refl
string_at-append buff bs more (block b) h = rw (bytes_at, get_elem?-append bs more b h) refl

pub Stands-append : (bs more : Blocks) (p : Ptr) → Stands bs p → Stands (bs ++ more) p
Stands-append bs more null h = h
Stands-append bs more (in_ring pos) h = tt
Stands-append bs more (block b) h = omega (arith, length-append bs more, h)

one_more : (bs : Blocks) (b : Option (List ℕ)) → length bs < length (bs ++ (b ∷ []))
one_more bs b = omega (arith, length-append bs (b ∷ []))

-- The entry's key has a place, where `read_entry` makes one.
abbrev KeyStands : LogEntry × Blocks → Type 0
KeyStands e = Stands e.1 e.0.key_addr

read_entry-KeyStands :
    (r : LocalRingbuff) (blocks : Blocks) (pos : ℕ) → Returns KeyStands (read_entry r blocks pos)
unfolding read_entry
read_entry-KeyStands r blocks pos =
    let k = int_at (read_block r pos mate_data_size) 0 in
    let w = int_at (read_block r pos mate_data_size) 4 in
    let key_pos = masked (pos + entry_size) (r.rb.size) in
    elim (Bool-cases (ltb k int_limit && ltb w int_limit)) [
      | inl small ↦ elim (Bool-cases (leb (r.rb.size) (key_pos + k))) [
        | inl cut ↦ rw (small, cut) (one_more blocks (some (read_block r key_pos k)))
        | inr near ↦ rw (small, near) tt
      ]
      | inr large ↦ rw large tt
    ]

pub read_entry-Stands :
    (r : LocalRingbuff) (blocks : Blocks) (pos : ℕ) (e : LogEntry × Blocks)
    → read_entry r blocks pos ≡ some e
    → Stands e.1 e.0.key_addr
read_entry-Stands r blocks pos e h =
    Returns-some KeyStands (read_entry r blocks pos) e h (read_entry-KeyStands r blocks pos)

-- What `locate_value` gives an entry.
pub record Located (blocks : Blocks) (e : LogEntry) (t : LogEntry × Blocks) : Type 0 where
  pub more : Blocks
  pub added : t.1 ≡ blocks ++ more
  pub value_stands : Stands t.1 t.0.value_addr
  pub same_key : t.0.key_addr ≡ e.key_addr
  pub same_length : (t.0.key_length ≡ e.key_length) × (t.0.value_length ≡ e.value_length)

pub locate_value-Located :
    (r : LocalRingbuff) (blocks : Blocks) (e : LogEntry)
    → Located blocks e (locate_value r blocks e)
unfolding locate_value
locate_value-Located r blocks e =
    let pos = masked (e.log_pos + value_offset e) (r.rb.size) in
    elim (Bool-cases (leb (r.rb.size) (pos + e.value_length))) [
      | inl cut ↦ rw cut (record {
        more = some (read_block r pos (e.value_length)) ∷ [];
        added = refl;
        value_stands = one_more blocks (some (read_block r pos (e.value_length)));
        same_key = refl;
        same_length = (refl, refl);
      })
      | inr near ↦ rw near (record {
        more = [];
        added = sym (append_nil blocks);
        value_stands = tt;
        same_key = refl;
        same_length = (refl, refl);
      })
    ]
