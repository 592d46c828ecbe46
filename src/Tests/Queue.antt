-- ===== src/Tests/Queue.antt =====
-- The queue of src/unlock_queue.c on small inputs.
use rdma_middleware.Prelude.{ℕ, ◌≡◌, refl, arith, true, false, some, none, List, [], ◌∷◌}
use rdma_middleware.Queue.{UnQueue, put_queue, pop_queue, empty_queue, top_queue}
use rdma_middleware.Queue.Fifo.{Op, put, look, remove, accepted, seen, done, run}
use rdma_middleware.Queue.Refine.{run_queue, run_queue_refines}

-- Three slots in the ring, one entry, the indices about to go round.
abbrev turning : UnQueue ℕ
turning = record { len = 3; wid = 0; rid = 2; slots = 7 ∷ 8 ∷ 9 ∷ 0 ∷ [] }

abbrev script : List (Op ℕ)
script = put 1 ∷ put 2 ∷ look ∷ remove ∷ look ∷ remove ∷ look ∷ []

run_queue-turning :
    run_queue turning script
    ≡ accepted true ∷ accepted false ∷ seen (some 9) ∷ done ∷ seen (some 1) ∷ done ∷ seen none ∷ []
unfolding put_queue pop_queue empty_queue top_queue
run_queue-turning = refl

-- An empty queue still shows the last entry to `topQueue`.
top_queue-empty : top_queue (record turning { rid = 0 }) ≡ some 7
unfolding top_queue
top_queue-empty = refl

run_queue_refines_example : run_queue turning script ≡ run 2 (9 ∷ []) script
run_queue_refines_example = run_queue_refines 0 script turning (omega arith)
