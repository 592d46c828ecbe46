-- ===== src/Log/Marks.antt =====
-- src/log_buffer.c, src/mid_hashmap.c: the mark of a log in the dirty map, set by `read_log_key` and
-- taken back by `clean_log`. The map is keyed by addresses, and what they point to may change between.
use rdma_middleware.Prelude.{
  ℕ, zero, suc, ◌+◌, ◌*◌, ◌≤◌, ◌<◌, ◌≡◌, refl, sym, ap, ◌∙◌, true, false, Option, some, List, [],
  ◌∷◌, length, length-replicate, get_or, set, leb, arith,
}
use rdma_middleware.HashMap.{
  HashMap, create_hash_map, entries, bucket, default_exists, default_get, store, default_put,
  default_remove, int_limit,
}
use rdma_middleware.HashMap.Keys.{Key}
use rdma_middleware.HashMap.Chains.{Chain, occurs, put_chain}
use rdma_middleware.HashMap.Inv.{default_get_lem, default_exists_lem}
use rdma_middleware.HashMap.Placed.{Placed, entries-replicate}
use rdma_middleware.HashMap.Methods.{IsValid, Puts, default_put-Puts, default_remove-Removes}
use rdma_middleware.Log.Reader.{Ptr, mark_dirty, unmark_dirty}

-- A map without a key, whatever the keys are compared by.
pub record IsClear (m : HashMap Ptr ℕ) : Type 0 where
  pub none_left : m.size ≡ 0
  pub no_entries : entries m.hash_list ≡ []
  pub width : length m.hash_list ≡ m.list_size
  pub two : 2 ≤ m.list_size
  pub small : m.list_size * 2 < int_limit

abbrev pub marked : Key Ptr → HashMap Ptr ℕ → Ptr → HashMap Ptr ℕ
marked key m p = record m {
  size = m.size + 1;
  hash_list = set m.hash_list (key.hash m.list_size p) ((p, 1) ∷ []);
}

Placed-clear :
    (key : Key Ptr) (n i : ℕ) (bs : List (Chain Ptr ℕ)) → entries bs ≡ [] → Placed key n i bs
unfolding entries
Placed-clear key n i [] h = tt
Placed-clear key n i ([] ∷ bs) h = (tt, tt, Placed-clear key n (suc i) bs h)
Placed-clear key n i ((e ∷ c) ∷ bs) h = absurd cc

get_or-clear : (bs : List (Chain Ptr ℕ)) (j : ℕ) → entries bs ≡ [] → get_or bs j [] ≡ []
unfolding entries
get_or-clear [] j h = refl
get_or-clear ([] ∷ bs) zero h = refl
get_or-clear ([] ∷ bs) (suc j) h = get_or-clear bs j h
get_or-clear ((e ∷ c) ∷ bs) j h = absurd cc

no_entries_left : (es : List (Ptr × ℕ)) → length es ≡ 0 → es ≡ []
no_entries_left [] h = refl
no_entries_left (e ∷ es) h = absurd (omega arith)

-- `createHashMap`, as `buff_init` calls it.
pub create_hash_map-IsClear :
    (n : ℕ) → 2 ≤ n → n * 2 < int_limit → IsClear (create_hash_map Ptr ℕ (some n))
unfolding create_hash_map
create_hash_map-IsClear n two small = record {
  none_left = refl;
  no_entries = entries-replicate n;
  width = length-replicate n [];
  two = two;
  small = small;
}

pub IsClear-IsValid : (key : Key Ptr) (m : HashMap Ptr ℕ) → IsClear m → IsValid key m
IsClear-IsValid key m c = record {
  placed = record {
    pos = omega (arith, c.two);
    width = c.width;
    counted = ap length c.no_entries ∙ sym c.none_left;
    placed = Placed-clear key m.list_size 0 m.hash_list c.no_entries;
  };
  loose = λ big changing. omega (arith, c.none_left, c.two);
}

module _ (key : Key Ptr) (m : HashMap Ptr ℕ) (c : IsClear m) (p : Ptr) where
  bucket-clear : bucket key m p ≡ []
  unfolding bucket
  bucket-clear = get_or-clear m.hash_list (key.hash m.list_size p) c.no_entries

  default_exists-clear : default_exists key m p ≡ false
  unfolding default_exists occurs
  default_exists-clear = rw bucket-clear refl

  store-clear : store key m p 1 ≡ (marked key m p, true)
  unfolding store put_chain
  store-clear = rw bucket-clear refl

  default_put-clear : default_put key 2 m p 1 ≡ some (marked key m p)
  unfolding default_put
  default_put-clear =
      let room : leb m.list_size (m.size + 1) ≡ false = ground (arith, c.none_left, c.two) in
      rw (store-clear, room) refl

  pub mark_dirty-clear : mark_dirty key m p ≡ some (marked key m p)
  unfolding mark_dirty
  mark_dirty-clear = rw (default_exists-clear, default_put-clear) refl

-- A key that the map holds with the count of one is taken out.
unmark_dirty-once :
    (key : Key Ptr) (m r : HashMap Ptr ℕ) (p : Ptr)
    → default_get key m p ≡ some 1
    → default_exists key m p ≡ true
    → (o : Option Ptr) → default_remove key 2 m p ≡ some (o, r)
    → unmark_dirty key m p ≡ some r
unfolding unmark_dirty
unmark_dirty-once key m r p one there o run = rw (there, one, run) refl

-- Between `read_log_key` and `clean_log` the way in which keys are compared may change, if the key
-- itself reads the same: the mark is taken back, and the map is clear again.
pub unmark_dirty-marked :
    (key key' : Key Ptr) (m : HashMap Ptr ℕ) (p : Ptr)
    → IsClear m
    → key'.hash m.list_size p ≡ key.hash m.list_size p
    → (r : HashMap Ptr ℕ) × (unmark_dirty key' (marked key m p) p ≡ some r) × IsClear r
unmark_dirty-marked key key' m p c same =
    let valid : IsValid key' m = IsClear-IsValid key' m c in
    let here : HashMap Ptr ℕ = marked key m p in
    let moved : marked key' m p ≡ here =
      ap (λ j. record m { size = m.size + 1; hash_list = set m.hash_list j ((p, 1) ∷ []) }) same in
    let (r, run, w) = default_put-Puts key' m valid c.small p 0 1 in
    let same_run : r ≡ marked key' m p = cc (run, default_put-clear key' m c p) in
    let stays : r ≡ here = same_run ∙ moved in
    let w' : Puts key' m p 1 here = rw (sym stays) w in
    let one : default_get key' here p ≡ some 1 = w'.reads p ∙ rw (key'.equal_refl p) in
    let there : default_exists key' here p ≡ true =
      (default_exists_lem key' here p).1 (λ h. cc (default_get_lem key' here p)) in
    let ((o, after), gone, x) = default_remove-Removes key' here w'.valid c.small p 1 in
    let size : after.size ≡ 0 = ground (arith, x.counted, one, c.none_left) in
    (
      after,
      unmark_dirty-once key' here after p one there o gone,
      record {
        none_left = size;
        no_entries = no_entries_left (entries after.hash_list) (x.valid.placed.counted ∙ size);
        width = x.valid.placed.width;
        two = x.some_left c.two;
        small = omega (arith, x.narrowed, c.small);
      },
    )
