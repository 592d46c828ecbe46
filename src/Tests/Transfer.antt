-- ===== src/Tests/Transfer.antt =====
-- The messages of src/mid_rdma_task.c and the completions of src/mid_rdma_cq_handler.c.
use rdma_middleware.Prelude.{
  ℕ, ◌+◌, ◌*◌, ◌≤◌, ◌≡◌, refl, arith, true, false, ◌||◌, some, List, [], ◌∷◌, ◌++◌, length,
  length-replicate, get_elem?, get_or, replicate,
}
use rdma_middleware.Prelude.Memory.{write_at, read_at}
use rdma_middleware.Client.Table.{remote_write}
use rdma_middleware.Connection.Events.{connected}
use rdma_middleware.Transfer.{
  Msg, SendMr, Sge, send_all, Receive, dhmp_post_all_recv, is_past_connected, Wc, wc_recv,
  wc_rdma_read, wc_rdma_write, Port, dhmp_comp_channel_handler,
}
use rdma_middleware.Transfer.OneSided.{
  Host, Verbs, success, dhmp_rdma_read, dhmp_rdma_write, dhmp_rdma_read_after_write,
}
use rdma_middleware.Transfer.Through.{
  IsServed, dhmp_rdma_read-dhmp_rdma_write, dhmp_rdma_read_after_write_lem,
}
use rdma_middleware.Transfer.Sending.{IsMsg, IsRegion, AllPlaced, send_all-AllPlaced}
use rdma_middleware.Transfer.Posting.{dhmp_post_all_recv_lem}
use rdma_middleware.Transfer.Completing.{
  any_finishes, messages, message_buffers, dhmp_comp_channel_handler_lem,
}

unfoldable zeros : ℕ → List ℕ
zeros n = replicate n 0

length-zeros : (n : ℕ) → length (zeros n) ≡ n
unfolding zeros
length-zeros n = length-replicate n 0

abbrev hello : Msg
hello = record { msg_type = 13; body = 104 ∷ 105 ∷ [] }

hello-IsMsg : IsMsg hello
hello-IsMsg = record { small = omega arith; fits = omega arith }

abbrev new_region : SendMr
new_region = record { cur_pos = 0; bytes = zeros 536870912 }

new_region-IsRegion : IsRegion new_region
new_region-IsRegion = record { wide = length-zeros 536870912; inside = omega arith }

send_all-AllPlaced_example :
    (r : SendMr × List Sge) × (send_all new_region (hello ∷ hello ∷ []) ≡ some r)
    × AllPlaced new_region (hello ∷ hello ∷ []) r
send_all-AllPlaced_example =
    send_all-AllPlaced new_region (hello ∷ hello ∷ []) new_region-IsRegion
      (hello-IsMsg, (hello-IsMsg, record {})) (omega arith)

abbrev fresh : Receive
fresh = record { trans_state = connected; is_poll_qp = true; region = []; posted = []; taken = [] }

fresh_up : is_past_connected fresh.trans_state ≡ false
unfolding is_past_connected
fresh_up = refl

dhmp_post_all_recv_lem_example :
    let posted = (dhmp_post_all_recv (λ i. true) fresh).posted in
    (length posted ≡ 8)
    × (get_elem? posted 7 ≡ some (record { addr = 7 * 67108864; length = 65536 }))
    × (7 * 67108864 + 65536 ≤ (7 + 1) * 67108864)
    × ((7 + 1) * 67108864 ≤ 536870912)
dhmp_post_all_recv_lem_example =
    dhmp_post_all_recv_lem (λ i. true) fresh 7 (λ j. refl) fresh_up refl (omega arith)

-- A message of type 13 stands at the start of the receive region; a read has come, a write has failed.
abbrev port : Port
port = record {
  receive = record fresh { region = 13 ∷ 0 ∷ 0 ∷ 0 ∷ 1 ∷ 0 ∷ 0 ∷ 0 ∷ 0 ∷ 0 ∷ 0 ∷ 0 ∷ 104 ∷ [] };
  done_flag = false ∷ false ∷ [];
  write_flag = true ∷ true ∷ [];
}

abbrev completions : List Wc
completions =
    record { repost = true; success = true; opcode = wc_recv; task = 0; addr = 0 }
    ∷ record { repost = true; success = false; opcode = wc_rdma_write; task = 0; addr = 0 }
    ∷ record { repost = true; success = true; opcode = wc_rdma_read; task = 1; addr = 0 }
    ∷ []

dhmp_comp_channel_handler_lem_example :
    let q = dhmp_comp_channel_handler true true port completions in
    (get_or q.done_flag 0 false ≡ (any_finishes completions 0 || false))
    × (q.receive.taken ≡ [] ++ messages port.receive.region completions)
    × (q.receive.posted ≡ [] ++ message_buffers completions)
dhmp_comp_channel_handler_lem_example =
    dhmp_comp_channel_handler_lem port completions 0 (omega arith) fresh_up

-- Bytes 2 to 4 of the memory are written to the first connection and read back to its start.
abbrev host : Host
host = record {
  memory = 0 ∷ 0 ∷ 7 ∷ 8 ∷ 9 ∷ 0 ∷ [];
  remote = λ t a. 0;
  tasks = 0;
  smrs = 1;
  regs = 1;
}

abbrev all_right : Verbs
all_right = record {
  smr_malloc = true;
  reg_mr = true;
  task_malloc = true;
  posted = true;
  completed = true;
}

all_right-IsServed : IsServed all_right
all_right-IsServed = record {
  smr_malloc = refl;
  reg_mr = refl;
  task_malloc = refl;
  posted = refl;
  completed = refl;
}

dhmp_rdma_read-dhmp_rdma_write_example :
    (h' : Host) × (h'' : Host) × (dhmp_rdma_write all_right host 0 4096 2 3 8 ≡ some (h', success))
    × (dhmp_rdma_read all_right h' 0 4096 0 3 8 ≡ some (h'', success))
    × (read_at h''.memory 0 3 ≡ 7 ∷ 8 ∷ 9 ∷ [])
    × (h''.remote ≡ h'.remote)
    × (h''.smrs ≡ 1)
    × (h''.regs ≡ 1)
    × (h''.tasks ≡ 2)
dhmp_rdma_read-dhmp_rdma_write_example =
    dhmp_rdma_read-dhmp_rdma_write all_right all_right host 0 4096 2 0 3 8 all_right-IsServed
      all_right-IsServed (omega arith) (omega arith)

dhmp_rdma_read_after_write_example :
    dhmp_rdma_read_after_write all_right all_right host 0 4096 2 3 (some 5)
    ≡ some (
      record {
        memory = 0 ∷ 0 ∷ 7 ∷ 8 ∷ 9 ∷ 9 ∷ [];
        remote = remote_write host.remote 0 4096 (7 ∷ 8 ∷ 9 ∷ []);
        tasks = 2;
        smrs = 2;
        regs = 2;
      },
      success,
    )
unfolding write_at
dhmp_rdma_read_after_write_example =
    dhmp_rdma_read_after_write_lem all_right all_right host 0 4096 2 5 3 all_right-IsServed
      all_right-IsServed (omega arith) (omega arith) (omega arith)
