-- ===== src/Log/System.antt =====
-- src/log_buffer.c: a node and the next one. The ring is memory of the reader that the writer's
-- `dhmp_write` reaches; the threads of both nodes take turns in any order.
use rdma_middleware.Prelude.{ℕ, Bool, ◌≡◌, some, List}
use rdma_middleware.Log.Writer.{Sender, head_node_write_log, nic_step}
use rdma_middleware.Log.Reader.{Receiver, read_log_key}
use rdma_middleware.Log.Pipeline.{read_value, send_log, clean_log}

-- The globals of both nodes. The ring stands in `sender.link.peer` and in `receiver.ring`.
pub record System : Type 0 where
  pub sender : Sender
  pub receiver : Receiver

-- What the writing node's threads leave, and the ring as the reader then sees it.
unfoldable pub by_sender : System → Sender → System
by_sender s next = record {
  sender = next;
  receiver = record (s.receiver) { ring = next.link.peer };
}

-- What the reading node's threads leave, and the ring as the writer then reaches it.
unfoldable pub by_receiver : System → Receiver → System
by_receiver s next = record {
  sender = record (s.sender) { link = record (s.sender.link) { peer = next.ring } };
  receiver = next;
}

unfoldable pub set_connected : System → Bool → System
set_connected s b = record s {
  sender = record (s.sender) { link = record (s.sender.link) { connected = b } };
}

-- A turn of one of the threads. The calls of the reading node return where the code goes on; a round
-- of `read_log_value` is one turn. The connection changes between the calls only: of a call, either every
-- transfer takes place or none.
pub data SystemStep (s t : System) : Type 0 where
  write_log :
      (rest key value : List ℕ)
      → t ≡ by_sender s (head_node_write_log s.sender rest key value).0
      → SystemStep s t
  send_value : t ≡ by_sender s (nic_step s.sender) → SystemStep s t
  take_keys :
      (limits n : ℕ) (r : Receiver)
      → read_log_key limits s.receiver ≡ some (r, n)
      → t ≡ by_receiver s r
      → SystemStep s t
  take_value :
      (found : Bool) (r : Receiver)
      → read_value s.receiver ≡ some (r, found)
      → t ≡ by_receiver s r
      → SystemStep s t
  pass_log : (r : Receiver) → send_log s.receiver ≡ some r → t ≡ by_receiver s r → SystemStep s t
  drop_log : (r : Receiver) → clean_log s.receiver ≡ some r → t ≡ by_receiver s r → SystemStep s t
  connection : (b : Bool) → t ≡ set_connected s b → SystemStep s t

pub data Reach (s : System) : System → Type 0 where
  here : Reach s s
  next : {t u : System} → Reach s t → SystemStep t u → Reach s u
