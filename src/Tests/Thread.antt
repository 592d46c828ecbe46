-- ===== src/Tests/Thread.antt =====
-- The work thread of src/mid_client_work.c on a short list.
use rdma_middleware.Prelude.{true, some, none, List, [], ◌∷◌}
use rdma_middleware.Client.Works.{Client, completes}
use rdma_middleware.Thread.{Work, malloc_work, write_work, read_work}

abbrev linked : Client
linked = record {
  connect_trans = none ∷ some 7 ∷ [];
  connected = λ t. true;
  rdma = λ t a n. completes;
  answers = λ t. true;
  table = λ i. [];
  remote = λ t a. 0;
}

abbrev three_works : List Work
three_works =
    malloc_work 7 64 (some 4096)
    ∷ write_work 7 281474976714752 (1 ∷ 2 ∷ []) 0
    ∷ read_work 7 281474976714752 (0 ∷ 0 ∷ []) 2 0
    ∷ []
