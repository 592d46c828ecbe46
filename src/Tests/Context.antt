-- ===== src/Tests/Context.antt =====
-- The event loop of src/mid_epoll_context.c with handlers that count.
use rdma_middleware.Prelude.{ℕ, ◌+◌, ◌≡◌, refl, true, Option, none, some, List, [], ◌∷◌, ◌++◌}
use rdma_middleware.Context.{EventData, handle_events, dhmp_context_run}
use rdma_middleware.Context.Dispatch.{dhmp_context_run-ends}

abbrev counts : ℕ → EventData ℕ
counts n = record {
  fd = 3;
  data_ptr = n;
  event_handler = λ fd ptr s. record s { state = s.state + ptr };
}

abbrev stops : EventData ℕ
stops = record { fd = 4; data_ptr = 0; event_handler = λ fd ptr s. record s { stop = true } }

abbrev quiet_rounds : List (Option (List (EventData ℕ)))
quiet_rounds = some (counts 1 ∷ counts 2 ∷ []) ∷ none ∷ []

-- The flag that was set is lost, and the handler behind the one that sets it still runs.
dhmp_context_run-ends_example :
    dhmp_context_run
      (record { stop = true; state = 0 })
      (quiet_rounds ++ (some (stops ∷ counts 5 ∷ []) ∷ some (counts 9 ∷ []) ∷ []))
    ≡ some (record { stop = true; state = 8 })
unfolding handle_events
dhmp_context_run-ends_example =
    dhmp_context_run-ends (record { stop = true; state = 0 }) quiet_rounds (stops ∷ counts 5 ∷ [])
      (some (counts 9 ∷ []) ∷ []) (refl, (refl, record {})) refl
