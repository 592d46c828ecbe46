-- ===== src/Queue/Refine.antt =====
-- The queue of src/unlock_queue.c behaves as a first-in first-out list of at most `len - 1` entries.
use native.Mathlib.Nat.{mod-eq_of_lt, mod_self}
use rdma_middleware.Prelude.{
  ℕ, zero, suc, ◌+◌, ◌-◌, ◌%◌, ◌<◌, ◌≤◌, ◌≡◌, ◌≢◌, refl, ap, ap₂, arith, none, List, [], ◌∷◌, ◌++◌,
  length, set, get_or, get_or-set, get_elem?-get_or, leb, ◌==◌, if◌then◌else◌, Bool-cases, inl, inr,
}
use rdma_middleware.Queue.{UnQueue, put_queue, pop_queue, empty_queue, top_queue}
use rdma_middleware.Queue.Fifo.{
  push, pop, front, is_empty, Op, put, look, remove, Reply, accepted, seen, done, run,
}
use rdma_middleware.Queue.Inv.{IsValid, put_queue-IsValid, pop_queue-IsValid}

-- The number of steps from `r` up to `w`, going round at `len`.
abbrev dist : ℕ → ℕ → ℕ → ℕ
dist len r w = if leb r w then w - r else w + len - r

mod_cases : (i len : ℕ) → i < len → (i + 1) % len ≡ (if i + 1 == len then 0 else i + 1)
mod_cases i len h = elim (Bool-cases (i + 1 == len)) [
  | inl e ↦ rw e (ground (arith, mod_self len))
  | inr e ↦ rw e (mod-eq_of_lt (ground arith))
]

module _ {A : Type 0} (junk : A) where
  -- The `n` entries from slot `r` on, going round at `len`.
  abbrev pub items : List A → ℕ → ℕ → ℕ → List A
  items slots len r zero = []
  items slots len r (suc n) = get_or slots r junk ∷ items slots len ((r + 1) % len) n

  -- The entries that the queue holds, oldest first.
  abbrev pub contents : UnQueue A → List A
  contents q = items q.slots q.len q.rid (dist q.len q.rid q.wid)

  length-items : (slots : List A) (len r n : ℕ) → length (items slots len r n) ≡ n
  length-items slots len r zero = refl
  length-items slots len r (suc n) = ap suc (length-items slots len ((r + 1) % len) n)

  -- A write at `w` is not seen in a window that ends before `w`.
  items-set :
      (slots : List A) (len r w n : ℕ) (x : A)
      → len < length slots
      → r < len
      → w < len
      → n ≤ dist len r w
      → items (set slots w x) len r n ≡ items slots len r n
  items-set slots len r w zero x hs hr hw hn = refl
  items-set slots len r w (suc n) x hs hr hw hn =
      ap₂ ◌∷◌ (ground (arith, get_or-set slots w r x junk)) (
        items-set slots len ((r + 1) % len) w n x hs (ground (arith, mod_cases r len)) hw
          (ground (arith, mod_cases r len)))

  -- A window that reaches `w` ends with the entry at `w`.
  items-snoc :
      (slots : List A) (len r w n : ℕ)
      → r < len
      → w < len
      → n ≡ dist len r w
      → items slots len r (suc n) ≡ items slots len r n ++ (get_or slots w junk ∷ [])
  items-snoc slots len r w zero hr hw e =
      let same : r ≡ w = ground arith in ap (λ i. get_or slots i junk ∷ []) same
  items-snoc slots len r w (suc n) hr hw e =
      ap (λ t. get_or slots r junk ∷ t)
        (items-snoc slots len ((r + 1) % len) w n (ground (arith, mod_cases r len)) hw
          (ground (arith, mod_cases r len)))

  -- `items` matches on the number that the code tests against the indices.
  items_of_ne_zero :
      (slots : List A) (len r n : ℕ)
      → n ≢ 0
      → items slots len r n ≡ get_or slots r junk ∷ items slots len ((r + 1) % len) (n - 1)
  items_of_ne_zero slots len r zero h = absurd (h refl)
  items_of_ne_zero slots len r (suc n) h = ap (λ k. items slots len r (suc k)) (omega arith)

  items_of_zero : (slots : List A) (len r n : ℕ) → n ≡ 0 → items slots len r n ≡ []
  items_of_zero slots len r n h = ap (items slots len r) h

  module _ (q : UnQueue A) (v : IsValid q) where
    pub length-contents : length (contents q) ≡ dist q.len q.rid q.wid
    length-contents = length-items q.slots q.len q.rid (dist q.len q.rid q.wid)

    dist-lt : dist q.len q.rid q.wid < q.len
    dist-lt = ground arith

    -- `putQueue` answers as the list does, and leaves the queue holding the list's entries.
    pub put_queue_refines :
        (x : A)
        → let (q', ok) = put_queue q x in (contents q', ok) ≡ push (q.len - 1) (contents q) x
    unfolding put_queue push
    put_queue_refines x = ground (
      arith,
      length-contents,
      dist-lt,
      mod_cases q.wid q.len,
      items-set q.slots q.len q.rid q.wid (dist q.len q.rid q.wid) x,
      items-snoc (set q.slots q.wid x) q.len q.rid q.wid (dist q.len q.rid q.wid),
      get_or-set q.slots q.wid q.wid x junk,
    )

    -- `popQueue` drops the oldest entry, if there is one.
    pub pop_queue_refines : contents (pop_queue q) ≡ pop (contents q)
    unfolding pop_queue pop
    pop_queue_refines =
        let n = dist q.len q.rid q.wid in
        ground (
          arith,
          dist-lt,
          mod_cases q.rid q.len,
          items_of_zero q.slots q.len q.rid n,
          items_of_ne_zero q.slots q.len q.rid n,
        )

    -- `emptyQueue` and `topQueue` together tell the oldest entry.
    pub look_refines :
        (empty_queue q ≡ is_empty (contents q))
        × ((if empty_queue q then none else top_queue q) ≡ front (contents q))
    unfolding empty_queue top_queue is_empty front
    look_refines =
        let n = dist q.len q.rid q.wid in
        ground (
          arith,
          items_of_zero q.slots q.len q.rid n,
          items_of_ne_zero q.slots q.len q.rid n,
          get_elem?-get_or q.slots q.rid junk,
        )

-- The calls of the threads on the queue itself.
abbrev pub run_queue {ℓ} : {A : Type ℓ} → UnQueue A → List (Op A) → List (Reply A)
run_queue q [] = []
run_queue q (put x ∷ ops) = let (q', ok) = put_queue q x in accepted ok ∷ run_queue q' ops
run_queue q (look ∷ ops) = seen (if empty_queue q then none else top_queue q) ∷ run_queue q ops
run_queue q (remove ∷ ops) = done ∷ run_queue (pop_queue q) ops

len-put_queue {ℓ} : {A : Type ℓ} (q : UnQueue A) (x : A) → (put_queue q x).0.len ≡ q.len
unfolding put_queue
len-put_queue q x = elim (Bool-cases ((q.wid + 1) % q.len == q.rid)) [ inl e ↦ rw e | inr e ↦ rw e ]

len-pop_queue {ℓ} : {A : Type ℓ} (q : UnQueue A) → (pop_queue q).len ≡ q.len
unfolding pop_queue
len-pop_queue q = elim (Bool-cases (q.wid == q.rid)) [ inl e ↦ rw e | inr e ↦ rw e ]

-- No sequence of calls tells a valid queue from the bounded list of its contents: entries come out
-- once each, in the order in which they were accepted, and one is refused exactly when `len - 1`
-- are held.
pub run_queue_refines :
    {A : Type 0} (junk : A) (ops : List (Op A)) (q : UnQueue A)
    → IsValid q
    → run_queue q ops ≡ run (q.len - 1) (contents junk q) ops
unfolding run
run_queue_refines junk [] q v = refl
run_queue_refines junk (put x ∷ ops) q v = rw (
  run_queue_refines junk ops (put_queue q x).0 (put_queue-IsValid q x v),
  ← put_queue_refines junk q v x,
  len-put_queue,
)
run_queue_refines junk (look ∷ ops) q v =
    rw (run_queue_refines junk ops q v, (look_refines junk q v).1)
run_queue_refines junk (remove ∷ ops) q v = rw (
  run_queue_refines junk ops (pop_queue q) (pop_queue-IsValid q v),
  ← pop_queue_refines junk q v,
  len-pop_queue,
)
