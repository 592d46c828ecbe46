-- ===== src/Transfer/Completing.antt =====
-- src/mid_rdma_cq_handler.c, src/mid_rdma_transport.c: completions.
use rdma_middleware.Prelude.{
  ℕ, zero, suc, ◌<◌, ◌≡◌, refl, ap, ap₂, sym, ◌∙◌, Bool, true, false, ◌&&◌, ◌||◌, List, [], ◌∷◌,
  ◌++◌, length, append_assoc, append_nil, get_or, length-set, set, arith, ◌==◌, replicate,
  if◌then◌else◌,
}
use rdma_middleware.Transfer.{
  malloc_request, malloc_response, malloc_error, free_request, free_response, send_request,
  send_response, buff_malloc_request, buff_malloc_response, disconnect, ignored, Sge, Receive,
  is_past_connected, dhmp_recv_task_create, dhmp_post_recv, wc_recv, wc_rdma_write, wc_rdma_read,
  Wc, Port, Handler, Msg, read_msg, dhmp_wc_recv_handler, dhmp_wc_success_handler, poll_completions,
  dhmp_comp_channel_handler,
}

-- Whether one of the completions makes the caller of this task go on.
abbrev pub finishes : Wc → ℕ → Bool
finishes wc task = wc.success && (elim (wc.opcode) [
  | wc_rdma_write ↦ wc.task == task
  | wc_rdma_read ↦ wc.task == task
  | _ ↦ false
])

abbrev pub any_finishes : List Wc → ℕ → Bool
any_finishes [] task = false
any_finishes (wc ∷ wcs) task = finishes wc task || any_finishes wcs task

-- The completions that bring a message.
abbrev pub is_message : Wc → Bool
is_message wc = wc.success && (elim (wc.opcode) [ wc_recv ↦ true | _ ↦ false ])

-- The handlers by the place of the type in `enum dhmp_msg_type`.
abbrev pub handlers : List Handler
handlers =
    malloc_request
    ∷ malloc_response
    ∷ malloc_error
    ∷ free_request
    ∷ free_response
    ∷ (replicate 7 ignored
        ++ (disconnect ∷ send_request ∷ send_response ∷ buff_malloc_request ∷ buff_malloc_response
            ∷ []))

abbrev pub messages : List ℕ → List Wc → List (Handler × Msg)
messages region [] = []
messages region (wc ∷ wcs) =
    let msg = read_msg region (wc.addr) in
    if is_message wc
    then (get_or handlers msg.msg_type ignored, msg) ∷ messages region wcs
    else messages region wcs

abbrev pub message_buffers : List Wc → List Sge
message_buffers [] = []
message_buffers (wc ∷ wcs) =
    if is_message wc && wc.repost
    then dhmp_recv_task_create (wc.addr) ∷ message_buffers wcs
    else message_buffers wcs

-- One completion.
abbrev step : Port → Wc → Port
step p wc = if wc.success then dhmp_wc_success_handler p wc else p

get_or-set_in :
    (flags : List Bool) (i j : ℕ) (v : Bool)
    → j < length flags
    → get_or (set flags i v) j false ≡ (if i == j then v else get_or flags j false)
get_or-set_in [] i j v h = absurd (omega arith)
get_or-set_in (x ∷ flags) zero zero v h = ground arith
get_or-set_in (x ∷ flags) zero (suc j) v h = ground arith
get_or-set_in (x ∷ flags) (suc i) zero v h = ground arith
get_or-set_in (x ∷ flags) (suc i) (suc j) v h =
    ground (arith, get_or-set_in flags i j v (omega arith))

step-done :
    (p : Port) (wc : Wc) (task : ℕ)
    → task < length p.done_flag
    → (get_or (step p wc).done_flag task false
        ≡ (finishes wc task || get_or p.done_flag task false))
      × (length (step p wc).done_flag ≡ length p.done_flag)
unfolding dhmp_wc_success_handler
step-done p wc task h = (
  ground (arith, get_or-set_in p.done_flag (wc.task) task true h),
  ground (arith, length-set p.done_flag (wc.task) true),
)

dhmp_wc_recv_handler_lem : (n : ℕ) → dhmp_wc_recv_handler n ≡ get_or handlers n ignored
unfolding dhmp_wc_recv_handler
dhmp_wc_recv_handler_lem zero = refl
dhmp_wc_recv_handler_lem (suc zero) = refl
dhmp_wc_recv_handler_lem (suc (suc zero)) = refl
dhmp_wc_recv_handler_lem (suc (suc (suc zero))) = refl
dhmp_wc_recv_handler_lem (suc (suc (suc (suc zero)))) = refl
dhmp_wc_recv_handler_lem (suc (suc (suc (suc (suc zero))))) = refl
dhmp_wc_recv_handler_lem (suc (suc (suc (suc (suc (suc zero)))))) = refl
dhmp_wc_recv_handler_lem (suc (suc (suc (suc (suc (suc (suc zero))))))) = refl
dhmp_wc_recv_handler_lem (suc (suc (suc (suc (suc (suc (suc (suc zero)))))))) = refl
dhmp_wc_recv_handler_lem (suc (suc (suc (suc (suc (suc (suc (suc (suc zero))))))))) = refl
dhmp_wc_recv_handler_lem (suc (suc (suc (suc (suc (suc (suc (suc (suc (suc zero)))))))))) = refl
dhmp_wc_recv_handler_lem (suc (suc (suc (suc (suc (suc (suc (suc (suc (suc (suc zero))))))))))) =
    refl
dhmp_wc_recv_handler_lem
      (suc (suc (suc (suc (suc (suc (suc (suc (suc (suc (suc (suc zero)))))))))))) =
    refl
dhmp_wc_recv_handler_lem
      (suc (suc (suc (suc (suc (suc (suc (suc (suc (suc (suc (suc (suc zero))))))))))))) =
    refl
dhmp_wc_recv_handler_lem
      (suc (suc (suc (suc (suc (suc (suc (suc (suc (suc (suc (suc (suc (suc zero)))))))))))))) =
    refl
dhmp_wc_recv_handler_lem
      (suc
        (suc (suc (suc (suc (suc (suc (suc (suc (suc (suc (suc (suc (suc (suc zero))))))))))))))) =
    refl
dhmp_wc_recv_handler_lem
      (suc (
        suc (
          suc
            (suc (suc (suc (suc (suc (suc (suc (suc (suc (suc (suc (suc (suc zero)))))))))))))))) =
    refl
dhmp_wc_recv_handler_lem
      (suc (
        suc (
          suc (
            suc
              (suc (suc (suc (suc (suc (suc (suc (suc (suc (suc (suc (suc (suc n))))))))))))))))) =
    ground arith

-- What a message that is taken leaves of the receive side.
step-receive :
    (p : Port) (wc : Wc)
    → is_past_connected p.receive.trans_state ≡ false
    → (step p wc).receive ≡ record (p.receive) {
      posted = p.receive.posted ++ message_buffers (wc ∷ []);
      taken = p.receive.taken ++ messages p.receive.region (wc ∷ []);
    }
unfolding dhmp_wc_success_handler dhmp_post_recv
step-receive p wc up =
    let msg = read_msg p.receive.region (wc.addr) in
    ground (
      arith,
      up,
      append_nil p.receive.posted,
      append_nil p.receive.taken,
      dhmp_wc_recv_handler_lem msg.msg_type,
    )

message_buffers-append :
    (wc : Wc) (wcs : List Wc)
    → message_buffers (wc ∷ wcs) ≡ message_buffers (wc ∷ []) ++ message_buffers wcs
message_buffers-append wc wcs = ground arith

messages-append :
    (region : List ℕ) (wc : Wc) (wcs : List Wc)
    → messages region (wc ∷ wcs) ≡ messages region (wc ∷ []) ++ messages region wcs
messages-append region wc wcs = ground arith

poll-done :
    (p : Port) (wcs : List Wc) (task : ℕ)
    → task < length p.done_flag
    → get_or (poll_completions p wcs).done_flag task false
      ≡ (any_finishes wcs task || get_or p.done_flag task false)
unfolding poll_completions
poll-done p [] task h = refl
poll-done p (wc ∷ wcs) task h =
    let (one, same) = step-done p wc task h in
    poll-done (step p wc) wcs task (omega (arith, same))
    ∙ ap (λ b. any_finishes wcs task || b) one
    ∙ or_swap (any_finishes wcs task) (finishes wc task) (get_or p.done_flag task false)
  where
    or_swap : (a b c : Bool) → (a || (b || c)) ≡ ((b || a) || c)
    or_swap a b c = ground arith

abbrev with_messages : Receive → List Wc → Receive
with_messages r wcs = record r {
  posted = r.posted ++ message_buffers wcs;
  taken = r.taken ++ messages r.region wcs;
}

poll-receive :
    (p : Port) (wcs : List Wc)
    → is_past_connected p.receive.trans_state ≡ false
    → (poll_completions p wcs).receive ≡ with_messages p.receive wcs
unfolding poll_completions
poll-receive p [] up =
    ap₂ (λ a b. record (p.receive) { posted = a; taken = b }) (sym (append_nil p.receive.posted))
      (sym (append_nil p.receive.taken))
poll-receive p (wc ∷ wcs) up =
    let one = step-receive p wc up in
    let still : is_past_connected (step p wc).receive.trans_state ≡ false =
      ap (λ t. is_past_connected t.trans_state) one ∙ up in
    poll-receive (step p wc) wcs still
    ∙ ap (λ t. with_messages t wcs) one
    ∙ ap₂ (λ a b. record (p.receive) { posted = a; taken = b })
        (append_assoc p.receive.posted (message_buffers (wc ∷ [])) (message_buffers wcs)
          ∙ ap (λ t. p.receive.posted ++ t) (sym (message_buffers-append wc wcs)))
        (append_assoc p.receive.taken (messages p.receive.region (wc ∷ []))
            (messages p.receive.region wcs)
          ∙ ap (λ t. p.receive.taken ++ t) (sym (messages-append p.receive.region wc wcs)))

-- When a completion event is handled, whatever completions are found, a task is done exactly if it was
-- before or if one of them is its successful read or write: a failed one leaves its caller waiting.
-- On a transport that is not past its connection, each message goes in the order of the completions
-- to the handler that `handlers` has at the place of its type in `enum dhmp_msg_type`, and its buffer is
-- posted again if that succeeds; the others post nothing.
pub dhmp_comp_channel_handler_lem :
    (p : Port) (wcs : List Wc) (task : ℕ)
    → task < length p.done_flag
    → is_past_connected p.receive.trans_state ≡ false
    → let q = dhmp_comp_channel_handler true true p wcs in
      (get_or q.done_flag task false ≡ (any_finishes wcs task || get_or p.done_flag task false))
      × (q.receive.taken ≡ p.receive.taken ++ messages p.receive.region wcs)
      × (q.receive.posted ≡ p.receive.posted ++ message_buffers wcs)
unfolding dhmp_comp_channel_handler
dhmp_comp_channel_handler_lem p wcs task h up =
    let receive = poll-receive p wcs up in
    (poll-done p wcs task h, ap (λ t. t.taken) receive, ap (λ t. t.posted) receive)
