-- ===== src/Thread.antt =====
-- src/mid_client_work.c: the client's work thread. A call puts its work at the end of the list and waits
-- until it is done; the thread takes works from the front and runs their handlers, one at a time. What a
-- handler learns from the network is part of the work here. `none` is a handler that never returns, or
-- undefined behaviour.
pub mod Served
use rdma_middleware.Prelude.{
  ℕ, zero, suc, Bool, Option, some, none, List, [], ◌∷◌, ◌++◌, if◌then◌else◌,
}
use rdma_middleware.Prelude.Results.{◌>>=◌}
use rdma_middleware.Client.Works.{
  Client, dhmp_malloc_work_handler, dhmp_free_work_handler, dhmp_read_work_handler,
  dhmp_write_work_handler, dhmp_send_work_handler,
}
use rdma_middleware.Buffers.{Answer, dhmp_buff_malloc_work_handler}

-- `struct dhmp_work`, by `enum dhmp_work_type`; `other_work` are the types that the thread only logs.
pub data Work : Type 0 where
  malloc_work : (trans len : ℕ) (allocated : Option ℕ) → Work
  free_work : (dhmp_addr : ℕ) (answered : Bool) → Work
  read_work : (trans dhmp_addr : ℕ) (local : List ℕ) (len offset : ℕ) → Work
  write_work : (trans dhmp_addr : ℕ) (bytes : List ℕ) (offset : ℕ) → Work
  send_work : (trans dhmp_addr : ℕ) (local : List ℕ) (len : ℕ) (is_write : Bool) → Work
  close_work : (trans : ℕ) → Work
  buff_malloc_work : (junk trans : ℕ) (answer : Option Answer) → Work
  other_work : Work

-- What the caller finds when its work is done.
pub data Result : Type 0 where
  address : ℕ → Result
  addresses : (buff_mate_addr buff_addr : ℕ) → Result
  buffer : List ℕ → Result
  finished : Result

-- The cases of `dhmp_work_handle_thread`. `dhmp_close_work_handler` only posts a message.
unfoldable pub handle_work : Client → Work → Option (Client × Result)
handle_work c (malloc_work trans len allocated) =
    dhmp_malloc_work_handler c trans len allocated >>= λ (t : Client × ℕ). some (t.0, address t.1)
handle_work c (free_work dhmp_addr answered) =
    dhmp_free_work_handler c dhmp_addr answered >>= λ (d : Client). some (d, finished)
handle_work c (read_work trans dhmp_addr local len offset) =
    dhmp_read_work_handler c trans dhmp_addr local len offset >>= λ (t : Client × List ℕ).
    some (t.0, buffer t.1)
handle_work c (write_work trans dhmp_addr bytes offset) =
    dhmp_write_work_handler c trans dhmp_addr bytes offset >>= λ (d : Client). some (d, finished)
handle_work c (send_work trans dhmp_addr local len is_write) =
    dhmp_send_work_handler c trans dhmp_addr local len is_write >>= λ (t : Client × List ℕ).
    some (t.0, buffer t.1)
handle_work c (close_work trans) = some (c, finished)
handle_work c (buff_malloc_work junk trans answer) =
    dhmp_buff_malloc_work_handler junk c trans answer >>= λ (t : Client × ℕ × ℕ).
    some (t.0, addresses t.1 t.2)
handle_work c other_work = some (c, finished)

-- The client with its `work_list`, the flag `stop` of its context, and what the works that are done have
-- come to, the first one first.
pub record WorkThread : Type 0 where
  pub stop : Bool
  pub client : Client
  pub work_list : List Work
  pub results : List Result

-- A caller's `list_add_tail`.
unfoldable pub add_work : WorkThread → Work → WorkThread
add_work t work = record t { work_list = t.work_list ++ (work ∷ []) }

-- One round of the loop.
unfoldable pub work_round : WorkThread → Option WorkThread
work_round t = elim (t.work_list) [
  | [] ↦ some t
  | work ∷ works ↦ handle_work t.client work >>= λ (r : Client × Result).
      some (record t { client = r.0; work_list = works; results = t.results ++ (r.1 ∷ []) })
]

-- So many rounds of `dhmp_work_handle_thread`, or less where the flag ends the loop.
unfoldable pub dhmp_work_handle_thread : ℕ → WorkThread → Option WorkThread
dhmp_work_handle_thread zero t = some t
dhmp_work_handle_thread (suc n) t =
    let rest = work_round t >>= λ (u : WorkThread). dhmp_work_handle_thread n u in
    if t.stop then some t else rest
