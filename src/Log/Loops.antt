-- ===== src/Log/Loops.antt =====
-- src/log_buffer.c: the loops of the threads, `writer_thread`, `NIC_thread`, and `reader_thread` with
-- `mid_node_example`, around the functions of `Log.Writer`, `Log.Reader` and `Log.Pipeline`.
use rdma_middleware.Prelude.{
  ℕ, zero, suc, Option, none, some, Bool, List, [], ◌∷◌, ◌++◌, if◌then◌else◌,
}
use rdma_middleware.HashMap.{◌>>=◌}
use rdma_middleware.Log.Writer.{head_node_write_log, nic_step}
use rdma_middleware.Log.Reader.{Ptr, Receiver, read_log_key, string_at}
use rdma_middleware.Log.Pipeline.{read_log_value, top_log, send_log, clean_log}
use rdma_middleware.Log.System.{System, by_sender, by_receiver}

-- The inner loop of `reader_thread`, with the values that it logs.
unfoldable pub execute_logs : ℕ → Receiver → Option (Receiver × List (List ℕ))
execute_logs zero r = some (r, [])
execute_logs (suc n) r = top_log r >>= λ (p : Ptr). send_log r >>= λ (sent : Receiver).
    clean_log sent >>= λ (cleaned : Receiver).
    execute_logs n cleaned >>= λ (t : Receiver × List (List ℕ)).
    some (t.0, string_at sent.ring.buff sent.blocks p ∷ t.1)

-- A round of the outer loop of `reader_thread`, which is the body of `mid_node_example`. The list is
-- the ring's memory as `read_log_value` finds it.
unfoldable pub reader_round : Receiver → List (List ℕ) → Option (Receiver × List (List ℕ))
reader_round r memories = read_log_key 1024 r >>= λ (a : Receiver × ℕ).
    read_log_value 1 a.0 memories >>= λ (b : Receiver × ℕ). execute_logs b.1 b.0

-- A log for `head_node_write_log`: what the bytes of its head behind the two lengths hold, the key, and
-- the value.
pub record Message : Type 0 where
  pub rest : List ℕ
  pub key : List ℕ
  pub value : List ℕ

-- A round of `writer_thread`, one of `NIC_thread` and one of `reader_thread`; the Boolean tells that
-- the log was taken, without which `writer_thread` tries it again.
unfoldable pub exchange : System → Message → Option (System × Bool × List (List ℕ))
exchange s m =
    let (sender, taken) = head_node_write_log s.sender m.rest m.key m.value in
    let written = by_sender s sender in
    let sent = by_sender written (nic_step written.sender) in
    reader_round sent.receiver (sent.receiver.ring.buff ∷ []) >>= λ (t : Receiver × List (List ℕ)).
    some (by_receiver sent t.0, taken, t.1)

-- The rounds for one message after another, while each is taken, with the values that were logged.
unfoldable pub exchange_all : System → List Message → Option (System × List (List ℕ))
exchange_all s [] = some (s, [])
exchange_all s (m ∷ ms) = exchange s m >>= λ (t : System × Bool × List (List ℕ)).
    let rest = exchange_all t.0 ms >>= λ (u : System × List (List ℕ)). some (u.0, t.2 ++ u.1) in
    if t.1 then rest else none
