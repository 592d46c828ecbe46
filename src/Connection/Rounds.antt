-- ===== src/Connection/Rounds.antt =====
-- src/mid_rdma_connection.c, src/mid_epoll_context.c: the events of the connections one after the other,
-- and the thread by which they are handled.
use rdma_middleware.Prelude.{
  ℕ, ◌≡◌, refl, ap, ◌∙◌, Bool, true, false, Bool-cases, inl, inr, Option, none, some, List, [], ◌∷◌,
  ◌++◌, if◌then◌else◌,
}
use rdma_middleware.HashMap.{◌>>=◌}
use rdma_middleware.Context.{Running, EventData, handle_events, wait_rounds, dhmp_context_run}
use rdma_middleware.Connection.Events.{
  CmEvent, route_resolved, Server, error, set_state, on_cm_route_resolved, dhmp_handle_ec_event,
  dhmp_event_channel_handler,
}
use rdma_middleware.Connection.Clients.{IsValid, Expected, dhmp_handle_ec_event-IsValid}

-- Each event is as expected when the handler comes to it.
abbrev pub AllExpected : Server → List CmEvent → Type 0
AllExpected s [] = Unit {0}
AllExpected s (e ∷ es) =
    Expected s e × ((r : Server) → dhmp_handle_ec_event s e ≡ some (r, true) → AllExpected r es)

-- From a valid server, `dhmp_event_channel_handler` returns for every list of waiting events of which those
-- it comes to are as expected, and the server is valid again: transports must still have what
-- `dhmp_destroy_source` gives back when they disconnect or their connection fails, a client of the server
-- that disconnects and any transport whose connection fails must be on the list of clients, and a request
-- must find a device.
pub dhmp_event_channel_handler-IsValid :
    (s : Server) (es : List CmEvent)
    → IsValid s
    → AllExpected s es
    → (r : Server) × (dhmp_event_channel_handler s es ≡ some r) × IsValid r
unfolding dhmp_event_channel_handler
dhmp_event_channel_handler-IsValid s [] v h = (s, refl, v)
dhmp_event_channel_handler-IsValid s (e ∷ es) v (h, hs) =
    let ((t, ok), result, w) = dhmp_handle_ec_event-IsValid s e v h in
    elim (Bool-cases ok) [
      | inl going ↦
          let (r, later, x) =
            dhmp_event_channel_handler-IsValid t es w
              (hs t (result ∙ ap (λ b. some (t, b)) going)) in
          (r, rw (result, going) later, x)
      | inr ended ↦ (t, rw (result, ended) refl, w)
    ]

-- The flag of the thread is that of the server's record.
abbrev answer : Running (Option Server) → List CmEvent → Option Server
answer t waiting =
    t.state >>= λ (s : Server). dhmp_event_channel_handler (record s { stop = t.stop }) waiting

-- What the thread goes on with.
abbrev told : Running (Option Server) → Option Server → Running (Option Server)
told t none = record t { state = none }
told t (some r) = record { stop = r.stop; state = some r }

-- The channel as a watched descriptor, with the events that librdmacm has for it.
unfoldable pub channel_event : ℕ → List CmEvent → EventData (Option Server)
channel_event fd waiting = record {
  fd = fd;
  data_ptr = 0;
  event_handler = λ fd ptr t. told t (answer t waiting);
}

-- Rounds in each of which `epoll_wait` reports the channel.
abbrev pub rounds : ℕ → List (List CmEvent) → List (Option (List (EventData (Option Server))))
rounds fd [] = []
rounds fd (es ∷ ess) = some (channel_event fd es ∷ []) ∷ rounds fd ess

-- The handling of these events leads from the one server to the other, and leaves the flag clear.
abbrev pub Leads : Server → List (List CmEvent) → Server → Type 0
Leads s [] r = s ≡ r
Leads s (es ∷ ess) r =
    (t : Server) × (dhmp_event_channel_handler s es ≡ some t) × (t.stop ≡ false) × Leads t ess r

abbrev running : Server → Running (Option Server)
running s = record { stop = s.stop; state = some s }

wait_rounds-channel_event :
    (t : Running (Option Server)) (r : Server) (fd : ℕ) (es : List CmEvent)
    (later : List (Option (List (EventData (Option Server)))))
    → answer t es ≡ some r
    → wait_rounds t (some (channel_event fd es ∷ []) ∷ later)
      ≡ (if r.stop then some (running r) else wait_rounds (running r) later)
unfolding wait_rounds handle_events channel_event
wait_rounds-channel_event t r fd es later e =
    ap
      (λ (o : Option Server).
        if (told t o).stop then some (told t o) else wait_rounds (told t o) later)
      e

answer_lem :
    (t : Running (Option Server)) (s : Server) (es : List CmEvent)
    → t.state ≡ some s
    → answer t es ≡ dhmp_event_channel_handler (record s { stop = t.stop }) es
answer_lem t s es here =
    ap
      (λ (o : Option Server).
        o >>= λ (u : Server). dhmp_event_channel_handler (record u { stop = t.stop }) es)
      here

wait_rounds-Leads :
    (t : Running (Option Server)) (s r : Server) (fd : ℕ) (ess : List (List CmEvent))
    (es : List CmEvent) (later : List (Option (List (EventData (Option Server))))) (q : Server)
    → t.state ≡ some s
    → Leads (record s { stop = t.stop }) ess r
    → dhmp_event_channel_handler r es ≡ some q
    → q.stop ≡ true
    → wait_rounds t (rounds fd ess ++ (some (channel_event fd es ∷ []) ∷ later)) ≡ some (running q)
wait_rounds-Leads t s r fd [] es later q here same e ends =
    wait_rounds-channel_event t q fd es later
      (answer_lem t s es here ∙ ap (λ (u : Server). dhmp_event_channel_handler u es) same ∙ e)
    ∙ ap (λ b. if b then some (running q) else wait_rounds (running q) later) ends
wait_rounds-Leads t s r fd (fs ∷ ess) es later q here (u, result, on, leads) e ends =
    let rest = rounds fd ess ++ (some (channel_event fd es ∷ []) ∷ later) in
    wait_rounds-channel_event t u fd fs rest (answer_lem t s fs here ∙ result)
    ∙ ap (λ b. if b then some (running u) else wait_rounds (running u) rest) on
    ∙ wait_rounds-Leads (running u) u r fd ess es later q refl leads e ends

-- The event loop of the node's own connections goes on while its flag is clear, and a failed `rdma_connect`
-- ends it: after rounds that lead to a server `r` with a clear flag, `dhmp_context_run` returns from the
-- round whose first event is a resolved route, the queue pair of which can be created and for which
-- `rdma_connect` fails. The transport is then in the error state; the events that still wait in this round
-- and all the later rounds are not handled.
pub dhmp_context_run-connect_failed :
    (stop : Bool) (s r : Server) (fd id : ℕ) (ess : List (List CmEvent)) (es : List CmEvent)
    (later : List (Option (List (EventData (Option Server)))))
    → Leads (record s { stop = false }) ess r
    → dhmp_context_run
        (record { stop = stop; state = some s })
        (rounds fd ess
          ++ (some (channel_event fd (route_resolved id true false ∷ es) ∷ []) ∷ later))
      ≡ some (record { stop = true; state = some (set_state (record r { stop = true }) id error) })
unfolding dhmp_context_run dhmp_event_channel_handler dhmp_handle_ec_event on_cm_route_resolved
    set_state
dhmp_context_run-connect_failed stop s r fd id ess es later leads =
    wait_rounds-Leads (record { stop = false; state = some s }) s r fd ess
      (route_resolved id true false ∷ es) later (set_state (record r { stop = true }) id error) refl
      leads refl refl
