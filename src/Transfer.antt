-- ===== src/Transfer.antt =====
-- src/mid_rdma_task.c, src/mid_rdma_transport.c, src/mid_rdma_cq_handler.c,
-- src/mid_rdma_recv_handler.c: messages between two nodes. The sender lays a message out in a region
-- of its own; the network copies it to a buffer that the receiver has posted, and both learn of it by
-- completions, which are parameters here. An address in a region is its offset.
pub mod Frames
pub mod Sending
pub mod Posting
pub mod Completing
pub mod OneSided
pub mod Through
use rdma_middleware.Prelude.{
  ℕ, zero, suc, ◌+◌, ◌*◌, ◌/◌, Bool, true, false, not, ◌&&◌, Option, some, none, List, [], ◌∷◌,
  ◌++◌, length, set, get_elem?, if◌then◌else◌, ltb, ◌==◌,
}
use rdma_middleware.Prelude.Memory.{write_at, read_at}
use rdma_middleware.Prelude.Results.{◌>>=◌}
use rdma_middleware.Client.Addresses.{addr_bytes}
use rdma_middleware.Connection.Events.{
  TransportState, init, listen, connecting, connected, disconnected, reconnect, closed, destroyed,
  error, reject,
}

-- `struct dhmp_msg`: the number of the message's type, and its body `data`, whose length is `data_size`.
pub record Msg : Type 0 where
  pub msg_type : ℕ
  pub body : List ℕ

-- `SEND_REGION_SIZE`, `RECV_REGION_SIZE`, `SINGLE_POLL_RECV_REGION` and `SINGLE_NORM_RECV_REGION`
abbrev pub send_region_size : ℕ
send_region_size = 512 * 1024 * 1024

abbrev pub recv_region_size : ℕ
recv_region_size = 512 * 1024 * 1024

abbrev pub single_poll_recv_region : ℕ
single_poll_recv_region = 64 * 1024 * 1024

abbrev pub single_norm_recv_region : ℕ
single_norm_recv_region = 64 * 1024

-- The number that bytes spell, lowest first.
unfoldable pub number_of : List ℕ → ℕ
number_of [] = 0
number_of (b ∷ bs) = b + 256 * number_of bs

-- The send region, `struct dhmp_mr`.
pub record SendMr : Type 0 where
  pub cur_pos : ℕ
  pub bytes : List ℕ

-- The `sge` of a task.
pub record Sge : Type 0 where
  pub addr : ℕ
  pub length : ℕ

-- `dhmp_send_task_create`; `none` is a copy past the end of the region.
unfoldable pub dhmp_send_task_create : SendMr → Msg → Option (SendMr × Sge)
dhmp_send_task_create mr msg =
    let size = length msg.body in
    let len = 4 + 8 + size in
    let pos = if ltb send_region_size (mr.cur_pos + len) then 0 else mr.cur_pos in
    let typed = write_at mr.bytes pos (addr_bytes 4 msg.msg_type) in
    let sized = write_at typed (pos + 4) (addr_bytes 8 size) in
    let bytes = write_at sized (pos + 4 + 8) msg.body in
    if ltb send_region_size (pos + len)
    then none
    else some (record { cur_pos = pos + len; bytes = bytes }, record { addr = pos; length = len })

-- The message as `dhmp_wc_success_handler` reads it from a buffer.
unfoldable pub read_msg : List ℕ → ℕ → Msg
read_msg bytes addr =
    let data_size = number_of (read_at bytes (addr + 4) 8) in
    record {
      msg_type = number_of (read_at bytes addr 4);
      body = read_at bytes (addr + 4 + 8) data_size;
    }

-- The calls of `dhmp_post_send` on a connected transport, one after the other.
unfoldable pub send_all : SendMr → List Msg → Option (SendMr × List Sge)
send_all mr [] = some (mr, [])
send_all mr (msg ∷ msgs) = dhmp_send_task_create mr msg >>= λ (t : SendMr × Sge).
    send_all t.0 msgs >>= λ (u : SendMr × List Sge). some (u.0, t.1 ∷ u.1)

-- The handlers that `dhmp_wc_recv_handler` calls; a message it does nothing for is `ignored`.
pub data Handler : Type 0 where
  malloc_request malloc_response malloc_error free_request free_response send_request send_response
        buff_malloc_request buff_malloc_response disconnect ignored :
      Handler

-- `dhmp_wc_recv_handler`, by the number of the type in `enum dhmp_msg_type`.
unfoldable pub dhmp_wc_recv_handler : ℕ → Handler
dhmp_wc_recv_handler msg_type =
    if msg_type == 0
    then malloc_request
    else if msg_type == 1
    then malloc_response
    else if msg_type == 2
    then malloc_error
    else if msg_type == 3
    then free_request
    else if msg_type == 4
    then free_response
    else if msg_type == 12
    then disconnect
    else if msg_type == 13
    then send_request
    else if msg_type == 14
    then send_response
    else if msg_type == 15
    then buff_malloc_request
    else if msg_type == 16
    then buff_malloc_response
    else ignored

-- Whether a state comes behind CONNECTED.
unfoldable pub is_past_connected : TransportState → Bool
is_past_connected init = false
is_past_connected listen = false
is_past_connected connecting = false
is_past_connected connected = false
is_past_connected _ = true

-- A transport's receive side: the receive region, the buffers that are posted, and the messages taken,
-- with the handlers that got them.
pub record Receive : Type 0 where
  pub trans_state : TransportState
  pub is_poll_qp : Bool
  pub region : List ℕ
  pub posted : List Sge
  pub taken : List (Handler × Msg)

-- `dhmp_recv_task_create`
unfoldable pub dhmp_recv_task_create : ℕ → Sge
dhmp_recv_task_create addr = record { addr = addr; length = single_norm_recv_region }

-- `dhmp_post_recv`. `ok` tells that the task can be allocated and that `ibv_post_recv` succeeds.
unfoldable pub dhmp_post_recv : Bool → Receive → ℕ → Receive
dhmp_post_recv ok r addr =
    if is_past_connected r.trans_state
    then r
    else if ok
    then record r { posted = r.posted ++ (dhmp_recv_task_create addr ∷ []) }
    else r

-- The loop of `dhmp_post_all_recv` from the buffer `i` on, for `n` buffers; `ok` tells of each whether it
-- can be posted.
unfoldable pub post_from : (ℕ → Bool) → ℕ → ℕ → ℕ → Receive → Receive
post_from ok single zero i r = r
post_from ok single (suc n) i r =
    post_from ok single n (i + 1) (dhmp_post_recv (ok i) r (i * single))

unfoldable pub dhmp_post_all_recv : (ℕ → Bool) → Receive → Receive
dhmp_post_all_recv ok r =
    let single = if r.is_poll_qp then single_poll_recv_region else single_norm_recv_region in
    post_from ok single (recv_region_size / single) 0 r

-- `enum ibv_wc_opcode`, as far as the code tells them apart.
pub data Opcode : Type 0 where
  wc_send wc_recv wc_rdma_write wc_rdma_read wc_other : Opcode

-- A completion. `task` is the task that `wr_id` points to, by its number, and `addr` is its buffer's;
-- `repost` tells whether the buffer of a message can be posted again.
pub record Wc : Type 0 where
  pub repost : Bool
  pub success : Bool
  pub opcode : Opcode
  pub task : ℕ
  pub addr : ℕ

-- A transport's tasks, by the flags that their callers wait for: `done_flag` of each task, and
-- `write_flag` of the entry it writes to.
pub record Port : Type 0 where
  pub receive : Receive
  pub done_flag : List Bool
  pub write_flag : List Bool

-- `dhmp_wc_success_handler`; a buffer is posted again when its message has been handled.
unfoldable pub dhmp_wc_success_handler : Port → Wc → Port
dhmp_wc_success_handler p wc =
    let msg = read_msg p.receive.region (wc.addr) in
    let got = record (p.receive) {
      taken = p.receive.taken ++ ((dhmp_wc_recv_handler msg.msg_type, msg) ∷ []);
    } in
    elim (wc.opcode) [
      | wc_send ↦ p
      | wc_recv ↦ record p { receive = dhmp_post_recv wc.repost got (wc.addr) }
      | wc_rdma_write ↦ record p {
        write_flag = set p.write_flag (wc.task) false;
        done_flag = set p.done_flag (wc.task) true;
      }
      | wc_rdma_read ↦ record p { done_flag = set p.done_flag (wc.task) true }
      | wc_other ↦ p
    ]

-- The loop of `dhmp_comp_channel_handler` over the completions that `ibv_poll_cq` finds;
-- `dhmp_wc_error_handler` only logs.
unfoldable pub poll_completions : Port → List Wc → Port
poll_completions p [] = p
poll_completions p (wc ∷ wcs) =
    poll_completions (if wc.success then dhmp_wc_success_handler p wc else p) wcs

-- `dhmp_comp_channel_handler`, with whether the event and the next notification can be had.
unfoldable pub dhmp_comp_channel_handler : Bool → Bool → Port → List Wc → Port
dhmp_comp_channel_handler event notify p wcs =
    if not event then p else if not notify then p else poll_completions p wcs
