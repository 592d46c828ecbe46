-- ===== src/Queue/Idle.antt =====
-- src/unlock_queue.c: one entry put into an empty queue and taken out.
use native.Mathlib.Nat.{mod-lt, mod-eq_of_lt, mod_self}
use rdma_middleware.Prelude.{
  ℕ, ◌+◌, ◌%◌, ◌==◌, refl, ap, ◌∙◌, sym, Bool-cases, inl, inr, ==→eq, if◌then◌else◌, ◌<◌, ◌≡◌, true,
  false, some, get_elem?-set, length-set, arith,
}
use rdma_middleware.Queue.{UnQueue, init_queue, put_queue, pop_queue, empty_queue, top_queue}
use rdma_middleware.Queue.Inv.{IsValid, init_queue-IsValid}

mod-wrap : (i n : ℕ) → i < n → (i + 1) % n ≡ (if i + 1 == n then 0 else i + 1)
mod-wrap i n h = elim (Bool-cases (i + 1 == n)) [
  | inl e ↦ rw e (ap (λ t. t % n) (==→eq (i + 1) n e) ∙ mod_self n)
  | inr e ↦ rw e (mod-eq_of_lt (ground arith))
]

module _ {A : Type 0} where
  -- An empty queue that has room for an entry.
  pub record IsIdle (q : UnQueue A) : Type 0 where
    pub valid : IsValid q
    pub empty : empty_queue q ≡ true
    pub room : 1 < q.len

  pub init_queue-IsIdle : (junk : A) (nums : ℕ) → 1 < nums → IsIdle (init_queue junk nums)
  unfolding init_queue empty_queue
  init_queue-IsIdle junk nums h = record {
    valid = init_queue-IsValid junk nums (omega arith);
    empty = ground arith;
    room = h;
  }

  -- What a queue with one entry does.
  pub record Holds (q : UnQueue A) (x : A) : Type 0 where
    pub some_left : empty_queue q ≡ false
    pub top : top_queue q ≡ some x
    pub emptied : IsIdle (pop_queue q)

  pub put_queue-Holds :
      (q : UnQueue A) (x : A) → IsIdle q → ((put_queue q x).1 ≡ true) × Holds (put_queue q x).0 x
  unfolding put_queue empty_queue top_queue pop_queue
  put_queue-Holds q x i =
      let v = i.valid in
      let slot = get_elem?-set q.slots q.wid q.rid x (omega (arith, v.wid_in, v.room)) in
      let wide = length-set q.slots q.wid x in
      let wrapped = mod-wrap q.wid q.len v.wid_in in
      let same : q.wid ≡ q.rid = ground (arith, i.empty) in
      let next_in : (q.wid + 1) % q.len < q.len = mod-lt (q.wid + 1) (omega (arith, i.room)) in
      let free : ((q.wid + 1) % q.len == q.rid) ≡ false = ground (arith, wrapped, i.room) in
      rw free (
        refl,
        record {
          some_left = free;
          top = slot ∙ ground (arith, same);
          emptied = rw free (record {
            valid = record {
              wid_in = next_in;
              rid_in = rw (sym same) next_in;
              room = omega (arith, wide, v.room);
            };
            empty = ground (arith, same);
            room = i.room;
          });
        },
      )
