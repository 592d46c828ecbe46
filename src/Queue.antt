-- ===== src/Queue.antt =====
-- src/unlock_queue.c, include/unlock_queue.h: the single-producer ring queue that carries the logs
-- between the threads. An operation that updates `*q` returns the new queue.
pub mod Fifo
pub mod Inv
pub mod Idle
pub mod Refine
use rdma_middleware.Prelude.{
  ℕ, ◌+◌, ◌%◌, Bool, true, false, Option, List, get_elem?, set, replicate, ◌==◌, if◌then◌else◌,
}

-- `unQueue`. A slot is `entry_size` bytes, taken whole; `data` has one slot more than `len`.
pub record UnQueue {ℓ} (A : Type ℓ) : Type ℓ where
  pub len : ℕ
  pub wid : ℕ
  pub rid : ℕ
  pub slots : List A

module _ {ℓ} {A : Type ℓ} where
  -- `junk` is what `malloc` leaves in a slot.
  unfoldable pub init_queue : A → ℕ → UnQueue A
  init_queue junk nums = record { len = nums; wid = 0; rid = 0; slots = replicate (nums + 1) junk }

  -- The Boolean is the code's 1 or 0.
  unfoldable pub put_queue : UnQueue A → A → UnQueue A × Bool
  put_queue q entry =
      if (q.wid + 1) % q.len == q.rid
      then (q, false)
      else (record q { slots = set q.slots q.wid entry; wid = (q.wid + 1) % q.len }, true)

  unfoldable pub pop_queue : UnQueue A → UnQueue A
  pop_queue q = if q.wid == q.rid then q else record q { rid = (q.rid + 1) % q.len }

  unfoldable pub empty_queue : UnQueue A → Bool
  empty_queue q = q.wid == q.rid

  -- The slot at `rid`, whether or not the queue is empty.
  unfoldable pub top_queue : UnQueue A → Option A
  top_queue q = get_elem? q.slots q.rid
