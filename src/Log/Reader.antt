-- ===== src/Log/Reader.antt =====
-- src/log_buffer.c, the receiving side: a node's own ring, the logs found in it, and the queues that
-- they pass through. `none` is undefined behaviour, or the code's `exit`.
use rdma_middleware.Prelude.{
  ℕ, zero, suc, ◌+◌, ◌-◌, Bool, true, false, ◌&&◌, Option, some, none, List, [], ◌∷◌, ◌++◌, length,
  get_elem?, drop, replicate, if◌then◌else◌, ltb, leb, ◌==◌,
}
use rdma_middleware.Queue.{UnQueue, put_queue}
use rdma_middleware.HashMap.{
  int_limit, HashMap, default_exists, default_get, default_put, default_remove, ◌>>=◌,
}
use rdma_middleware.HashMap.Keys.{Key}
use rdma_middleware.HashMap.Text.{string_key}
use rdma_middleware.Log.Window.{copy_in, copy_out}
use rdma_middleware.Log.Geometry.{masked, rb_data_size, rb_count_size, entry_size, mate_data_size}
use rdma_middleware.Log.Bytes.{int_at}
use rdma_middleware.Log.Writer.{LocalRingbuff, advance}

-- `enum node_class`
pub data NodeClass : Type 0 where
  head normal tail : NodeClass

-- An address: NULL, a byte of the ring, or the start of a `malloc`ed block.
pub data Ptr : Type 0 where
  null : Ptr
  in_ring : ℕ → Ptr
  block : ℕ → Ptr

-- `logEntry`; `free_cas_flag` is never read.
pub record LogEntry : Type 0 where
  pub key_length : ℕ
  pub value_length : ℕ
  pub log_pos : ℕ
  pub key_is_cut : Bool
  pub value_is_cut : Bool
  pub key_addr : Ptr
  pub value_addr : Ptr

-- `malloc`ed blocks by number, `none` once freed.
abbrev pub Blocks : Type 0
Blocks = List (Option (List ℕ))

-- The globals that the reading thread works on. A queue holds pointers to entries, which stand in
-- `logs`: the entry that `value_peeding_queue` and `dirty_queue` share is one.
pub record Receiver : Type 0 where
  pub ring : LocalRingbuff
  pub blocks : Blocks
  pub logs : List (Option LogEntry)
  pub pending : UnQueue ℕ
  pub executing : UnQueue ℕ
  pub sending : UnQueue ℕ
  pub dirty : UnQueue ℕ
  pub dirty_map : HashMap Ptr ℕ
  pub node_class : NodeClass

-- `rb_read`. `want` tells that `buf` is not NULL, and `start` is `none` for -1. The result is the
-- bytes copied to `buf`; `none` is the return value false.
unfoldable pub rb_read :
    LocalRingbuff → Bool → Option ℕ → ℕ → Bool → LocalRingbuff × Option (List ℕ)
rb_read r want start len is_copy =
    let pos : ℕ = elim start [ none ↦ r.rb.rd_pointer | some p ↦ p ] in
    let out : List ℕ = if want then copy_out (r.rb.size) r.buff pos len else [] in
    let cleared : List ℕ =
      if want then copy_in (r.rb.size) r.buff pos (replicate len 0) else r.buff in
    if ltb (rb_data_size (r.rb)) len then (r, none) else if is_copy then (r, some out) else (
      record r { rb = record (r.rb) { rd_pointer = advance (r.rb.size) pos len }; buff = cleared },
      some out,
    )

-- What `malloc` and a copy by `rb_read` put into a new block: a refused read leaves it as it was,
-- which no caller may rely on.
unfoldable pub read_block : LocalRingbuff → ℕ → ℕ → List ℕ
read_block r pos len = elim ((rb_read r true (some pos) len true).1) [
  | none ↦ []
  | some bytes ↦ bytes
]

-- The part of `read_log_key` that builds an entry: the lengths are read, and the key is copied if it
-- runs to the end of the ring. A length above INT_MAX is negative in the code.
unfoldable pub read_entry : LocalRingbuff → Blocks → ℕ → Option (LogEntry × Blocks)
read_entry r blocks pos =
    let head_bytes = read_block r pos mate_data_size in
    let key_len = int_at head_bytes 0 in
    let value_len = int_at head_bytes 4 in
    let key_pos = masked (pos + entry_size) (r.rb.size) in
    let entry = λ (cut : Bool) (addr : Ptr).
      (let e : LogEntry = record {
        key_length = key_len;
        value_length = value_len;
        log_pos = pos;
        key_is_cut = cut;
        value_is_cut = false;
        key_addr = addr;
        value_addr = null;
      } in
        e) in
    if ltb key_len int_limit && ltb value_len int_limit
    then (if leb (r.rb.size) (key_pos + key_len)
        then some (
          entry true (block (length blocks)),
          blocks ++ (some (read_block r key_pos key_len) ∷ []),
        )
        else some (entry false (in_ring key_pos), blocks))
    else none

-- `LOG_VALUE_OFFSET`, `LOG_NEXT_OFFSET` and `LOG_VALUE_TAG_OFFSET`
abbrev pub value_offset : LogEntry → ℕ
value_offset e = entry_size + e.key_length

abbrev pub next_offset : LogEntry → ℕ
next_offset e = entry_size + e.key_length + e.value_length

abbrev pub tag_offset : LogEntry → ℕ
tag_offset e = entry_size + e.key_length + e.value_length - 1

-- The bytes up to the first zero.
unfoldable pub until_zero : List ℕ → List ℕ
until_zero [] = []
until_zero (b ∷ bs) = if b == 0 then [] else b ∷ until_zero bs

-- The bytes from an address on; a freed block has none.
unfoldable pub bytes_at : List ℕ → Blocks → Ptr → List ℕ
bytes_at buff blocks null = []
bytes_at buff blocks (in_ring pos) = drop pos buff
bytes_at buff blocks (block i) = elim (get_elem? blocks i) [
  | none ↦ []
  | some b ↦ elim b [ none ↦ [] | some bytes ↦ bytes ]
]

-- The C string at an address, as it reads now.
unfoldable pub string_at : List ℕ → Blocks → Ptr → List ℕ
string_at buff blocks p = until_zero (bytes_at buff blocks p)

-- The map is keyed by addresses, and compares and hashes what they point to when it is called.
unfoldable pub ptr_key : List ℕ → Blocks → Key Ptr
ptr_key buff blocks = record {
  equal = λ p q. string_key.equal (string_at buff blocks p) (string_at buff blocks q);
  hash = λ n p. string_key.hash n (string_at buff blocks p);
  equal_refl = λ p. string_key.equal_refl (string_at buff blocks p);
  equal_symm = λ p q h. string_key.equal_symm (string_at buff blocks p) (string_at buff blocks q) h;
  equal_trans = λ p q s h k.
      string_key.equal_trans (string_at buff blocks p) (string_at buff blocks q)
        (string_at buff blocks s) h k;
  hash_lt = λ n p h. string_key.hash_lt n (string_at buff blocks p) h;
  hash_equal =
      λ n p q h. string_key.hash_equal n (string_at buff blocks p) (string_at buff blocks q) h;
}

-- The fuel for the mutual recursion of `default_put` and `reset_hash_map`.
abbrev pub map_fuel : ℕ
map_fuel = 2

-- One more log under this key: the block under `dirty_lock` in `read_log_key`.
unfoldable pub mark_dirty : Key Ptr → HashMap Ptr ℕ → Ptr → Option (HashMap Ptr ℕ)
mark_dirty key m p =
    let again =
      default_put key map_fuel m p
        ((elim (default_get key m p) as (λ _. ℕ) [ none ↦ 0 | some n ↦ n ]) + 1) in
    if default_exists key m p then again else default_put key map_fuel m p 1

-- One log less: the block under `dirty_lock` in `clean_log`. A key that is not there ends the
-- process.
unfoldable pub unmark_dirty : Key Ptr → HashMap Ptr ℕ → Ptr → Option (HashMap Ptr ℕ)
unmark_dirty key m p =
    let count = (elim (default_get key m p) as (λ _. ℕ) [ none ↦ 0 | some n ↦ n ]) - 1 in
    if default_exists key m p
    then (if count == 0
        then (default_remove key map_fuel m p >>= λ r. some r.1)
        else default_put key map_fuel m p count)
    else none

unfoldable pub judge_key_dirty : Receiver → Ptr → Bool
judge_key_dirty r p = default_exists (ptr_key r.ring.buff r.blocks) r.dirty_map p

-- One round of the loop of `read_log_key`, with the next position.
unfoldable pub read_key : Receiver → ℕ → Option (Receiver × ℕ)
read_key r pos = read_entry r.ring r.blocks pos >>= λ (e : LogEntry × Blocks).
    mark_dirty (ptr_key r.ring.buff e.1) r.dirty_map (e.0.key_addr) >>= λ (m : HashMap Ptr ℕ).
    let id = length r.logs in
    let (waiting, queued) = put_queue r.pending id in
    if queued
    then some (
      record r {
        blocks = e.1;
        logs = r.logs ++ (some e.0 ∷ []);
        pending = waiting;
        dirty = (put_queue r.dirty id).0;
        dirty_map = m;
      },
      masked (pos + next_offset (e.0)) (r.ring.rb.size),
    )
    else none

unfoldable pub read_keys : ℕ → Receiver → ℕ → Option (Receiver × ℕ × ℕ)
read_keys zero r pos = some (r, pos, 0)
read_keys (suc limits) r pos =
    let rest = read_key r pos >>= λ (s : Receiver × ℕ).
    read_keys limits s.0 s.1 >>= λ (t : Receiver × ℕ × ℕ). some (t.0, t.1, t.2 + 1) in
    if ltb (rb_count_size (r.ring.rb) pos) mate_data_size then some (r, pos, 0) else rest

unfoldable pub read_log_key : ℕ → Receiver → Option (Receiver × ℕ)
read_log_key limits r = read_keys limits r r.ring.rd_key_pointer >>= λ (t : Receiver × ℕ × ℕ).
    some (record (t.0) { ring = record (t.0.ring) { rd_key_pointer = t.1 } }, t.2)
