-- ===== src/Context.antt =====
-- src/mid_epoll_context.c, include/dhmp_context.h: the thread that waits for the events of the watched
-- descriptors and calls their handlers. What malloc, epoll and pthread_create come to, and the events
-- that epoll_wait reports, are parameters.
pub mod Dispatch
use rdma_middleware.Prelude.{
  ℕ, ◌+◌, ◌-◌, Bool, true, false, not, Option, none, some, List, [], ◌∷◌, ◌++◌, if◌then◌else◌, ◌==◌,
}

-- The program's state, with the flag `stop` of its `dhmp_context`.
pub record Running (S : Type 0) : Type 0 where
  pub stop : Bool
  pub state : S

-- `dhmp_event_data`. A handler may change all of the state, the flag included.
pub record EventData (S : Type 0) : Type 0 where
  pub fd : ℕ
  pub data_ptr : ℕ
  pub event_handler : ℕ → ℕ → Running S → Running S

-- What the epoll instance watches, and how many blocks of event data the process holds.
pub record Watched (S : Type 0) : Type 0 where
  pub events : List (EventData S)
  pub blocks : ℕ

-- What `dhmp_context_init` leaves: an open epoll instance, and the thread.
pub record Opened : Type 0 where
  pub epoll_fd : Bool
  pub epoll_thread : Bool

-- `dhmp_context_init`, with whether it returns 0.
unfoldable pub dhmp_context_init : Bool → Bool → Opened × Bool
dhmp_context_init create thread =
    let opened : Opened = record { epoll_fd = true; epoll_thread = false } in
    if not create
    then (record { epoll_fd = false; epoll_thread = false }, false)
    else if not thread
    then (record opened { epoll_fd = false }, false)
    else (record opened { epoll_thread = true }, true)

module _ {S : Type 0} where
  -- `dhmp_context_add_event_fd`, with whether it returns 0.
  unfoldable pub dhmp_context_add_event_fd :
      Bool → Bool → Watched S → EventData S → Watched S × Bool
  dhmp_context_add_event_fd malloc ctl w e =
      let held = record w { blocks = w.blocks + 1 } in
      if not malloc
      then (w, false)
      else if not ctl
      then (record held { blocks = held.blocks - 1 }, false)
      else (record held { events = held.events ++ (e ∷ []) }, true)

  -- The events but for those of a descriptor.
  unfoldable pub without_fd : ℕ → List (EventData S) → List (EventData S)
  without_fd fd [] = []
  without_fd fd (e ∷ es) = let rest = without_fd fd es in if e.fd == fd then rest else e ∷ rest

  -- `dhmp_context_del_event_fd`, with whether it returns 0.
  unfoldable pub dhmp_context_del_event_fd : Bool → Watched S → ℕ → Watched S × Bool
  dhmp_context_del_event_fd ctl w fd =
      if ctl then (record w { events = without_fd fd w.events }, true) else (w, false)

  -- The inner loop of `dhmp_context_run`.
  unfoldable pub handle_events : Running S → List (EventData S) → Running S
  handle_events s [] = s
  handle_events s (e ∷ es) = handle_events (e.event_handler e.fd e.data_ptr s) es

  -- The outer loop, over what each call of `epoll_wait` reports: `none` for a failed one. At the end of
  -- the list the thread is still waiting.
  unfoldable pub wait_rounds : Running S → List (Option (List (EventData S))) → Option (Running S)
  wait_rounds s [] = none
  wait_rounds s (reported ∷ later) =
      let s' : Running S = elim reported [ none ↦ s | some es ↦ handle_events s es ] in
      let rest = wait_rounds s' later in if s'.stop then some s' else rest

  unfoldable pub dhmp_context_run :
      Running S → List (Option (List (EventData S))) → Option (Running S)
  dhmp_context_run s reported = wait_rounds (record s { stop = false }) reported
