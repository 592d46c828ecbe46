-- ===== src/Queue/Inv.antt =====
-- The representation invariant of the queue of src/unlock_queue.c.
use native.Mathlib.Nat.{mod-lt}
use rdma_middleware.Prelude.{ℕ, ◌+◌, ◌<◌, arith, length, length-set, length-replicate}
use rdma_middleware.Queue.{UnQueue, init_queue, put_queue, pop_queue}

module _ {ℓ} {A : Type ℓ} where
  -- Both indices lie in the ring, and the ring in the slots.
  pub record IsValid (q : UnQueue A) : Type ℓ where
    pub wid_in : q.wid < q.len
    pub rid_in : q.rid < q.len
    pub room : q.len < length q.slots

  pub init_queue-IsValid : (junk : A) (nums : ℕ) → 0 < nums → IsValid (init_queue junk nums)
  unfolding init_queue
  init_queue-IsValid junk nums h = ground (arith, length-replicate (nums + 1) junk)

  pub put_queue-IsValid : (q : UnQueue A) (entry : A) → IsValid q → IsValid (put_queue q entry).0
  unfolding put_queue
  put_queue-IsValid q entry v =
      ground (arith, length-set q.slots q.wid entry, mod-lt (q.wid + 1) {m = q.len})

  pub pop_queue-IsValid : (q : UnQueue A) → IsValid q → IsValid (pop_queue q)
  unfolding pop_queue
  pop_queue-IsValid q v = ground (arith, mod-lt (q.rid + 1) {m = q.len})
