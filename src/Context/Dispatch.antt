-- ===== src/Context/Dispatch.antt =====
-- src/mid_epoll_context.c: which events are handled before the thread ends, and what a watched descriptor
-- leaves.
use rdma_middleware.Prelude.{
  ℕ, ◌+◌, ◌≡◌, ◌≢◌, refl, sym, ap, ◌∙◌, true, false, Option, none, some, List, [], ◌∷◌, ◌++◌, arith,
  if◌then◌else◌,
}
use rdma_middleware.Context.{
  Running, EventData, Watched, dhmp_context_add_event_fd, without_fd, dhmp_context_del_event_fd,
  handle_events, wait_rounds, dhmp_context_run,
}

module _ {S : Type 0} where
  -- The events of all the calls of `epoll_wait`, one behind the other.
  abbrev pub reported : List (Option (List (EventData S))) → List (EventData S)
  reported [] = []
  reported (none ∷ later) = reported later
  reported (some es ∷ later) = es ++ reported later

  -- The flag is clear after each of these calls.
  abbrev pub GoesOn : Running S → List (Option (List (EventData S))) → Type 0
  GoesOn s [] = Unit {0}
  GoesOn s (none ∷ later) = (s.stop ≡ false) × GoesOn s later
  GoesOn s (some es ∷ later) =
      ((handle_events s es).stop ≡ false) × GoesOn (handle_events s es) later

  handle_events-append :
      (s : Running S) (es fs : List (EventData S))
      → handle_events s (es ++ fs) ≡ handle_events (handle_events s es) fs
  unfolding handle_events
  handle_events-append s [] fs = refl
  handle_events-append s (e ∷ es) fs =
      handle_events-append (e.event_handler e.fd e.data_ptr s) es fs

  wait_rounds-ends :
      (s : Running S) (before : List (Option (List (EventData S)))) (es : List (EventData S))
      (later : List (Option (List (EventData S))))
      → GoesOn s before
      → (handle_events (handle_events s (reported before)) es).stop ≡ true
      → wait_rounds s (before ++ (some es ∷ later))
        ≡ some (handle_events (handle_events s (reported before)) es)
  unfolding wait_rounds handle_events
  wait_rounds-ends s [] es later on ends =
      ap (λ b. if b then some (handle_events s es) else wait_rounds (handle_events s es) later) ends
  wait_rounds-ends s (none ∷ before) es later (on, rest) ends =
      ap (λ b. if b then some s else wait_rounds s (before ++ (some es ∷ later))) on
      ∙ wait_rounds-ends s before es later rest ends
  wait_rounds-ends s (some fs ∷ before) es later (on, rest) ends =
      let t : Running S = handle_events s fs in
      let joined = handle_events-append s fs (reported before) in
      ap (λ b. if b then some t else wait_rounds t (before ++ (some es ∷ later))) on
      ∙ wait_rounds-ends t before es later rest
          (ap (λ (u : Running S). (handle_events u es).stop) (sym joined) ∙ ends)
      ∙ ap (λ u. some (handle_events u es)) (sym joined)

  -- `dhmp_context_run` first clears `stop`, whatever it was. If then the handlers leave it clear in all the
  -- rounds before one in which it gets set, it ends after that round, in which it calls every handler
  -- reported; in all it has called the handlers of all the rounds so far in their order, and no other.
  pub dhmp_context_run-ends :
      (s : Running S) (before : List (Option (List (EventData S)))) (es : List (EventData S))
      (later : List (Option (List (EventData S))))
      → GoesOn (record s { stop = false }) before
      → (handle_events (record s { stop = false }) (reported before ++ es)).stop ≡ true
      → dhmp_context_run s (before ++ (some es ∷ later))
        ≡ some (handle_events (record s { stop = false }) (reported before ++ es))
  unfolding dhmp_context_run
  dhmp_context_run-ends s before es later on ends =
      let cleared : Running S = record s { stop = false } in
      rw (handle_events-append cleared (reported before) es) (
        wait_rounds-ends cleared before es later on (
          ap (λ (t : Running S). t.stop) (sym (handle_events-append cleared (reported before) es))
          ∙ ends))

  -- No event of the list is of this descriptor.
  abbrev pub IsNew : ℕ → List (EventData S) → Type 0
  IsNew fd [] = Unit {0}
  IsNew fd (e ∷ es) = (e.fd ≢ fd) × IsNew fd es

  without_fd-append :
      (e : EventData S) (es : List (EventData S))
      → IsNew e.fd es
      → without_fd e.fd (es ++ (e ∷ [])) ≡ es
  unfolding without_fd
  without_fd-append e [] h = ground arith
  without_fd-append e (f ∷ es) (ne, h) = ground (arith, ne, without_fd-append e es h)

  -- A new descriptor that is watched and then no longer watched leaves the watched events as they were,
  -- and one block of event data more.
  dhmp_context_del_event_fd-add :
      (w : Watched S) (e : EventData S)
      → IsNew e.fd w.events
      → let (added, ok) = dhmp_context_add_event_fd true true w e in
        let (removed, gone) = dhmp_context_del_event_fd true added e.fd in
        (ok ≡ true) × (gone ≡ true) × (removed.events ≡ w.events) × (removed.blocks ≡ w.blocks + 1)
  unfolding dhmp_context_add_event_fd dhmp_context_del_event_fd
  dhmp_context_del_event_fd-add w e h = (refl, refl, without_fd-append e w.events h, refl)
