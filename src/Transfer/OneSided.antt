-- ===== src/Transfer/OneSided.antt =====
-- src/mid_rdma_transport.c, src/mid_rdma_task.c, src/mid_rdma_init.c: reads and writes of another node's
-- memory, with the blocks and the registrations that they take. What malloc and the verbs come to, and
-- whether a completion arrives, are parameters.
use rdma_middleware.Prelude.{
  ℕ, ◌+◌, ◌-◌, ◌%◌, Bool, false, not, ◌&&◌, Option, none, some, List, replicate, if◌then◌else◌,
}
use rdma_middleware.Prelude.Memory.{write_at, read_at}
use rdma_middleware.Prelude.Results.{◌>>=◌}
use rdma_middleware.Client.Addresses.{word}
use rdma_middleware.Client.Table.{Remote, remote_read, remote_write}
use rdma_middleware.Transfer.{Sge}

-- The process: its memory, that of the servers, and how many blocks of tasks, blocks of
-- `dhmp_send_mr` and registrations it holds.
pub record Host : Type 0 where
  pub memory : List ℕ
  pub remote : Remote
  pub tasks : ℕ
  pub smrs : ℕ
  pub regs : ℕ

-- What the calls for one request come to, in the code's order; `completed` tells that a completion of the
-- request without an error arrives.
pub record Verbs : Type 0 where
  pub smr_malloc : Bool
  pub reg_mr : Bool
  pub task_malloc : Bool
  pub posted : Bool
  pub completed : Bool

-- A return of 0 or -1, or the end of the process.
pub data Ending : Type 0 where
  success failure exits : Ending

-- `dhmp_get_mr_from_send_list`, with the address that is registered, or NULL.
unfoldable pub dhmp_get_mr_from_send_list : Verbs → Host → ℕ → Host × Option ℕ
dhmp_get_mr_from_send_list v h addr =
    let held = record h { smrs = h.smrs + 1 } in
    if not v.smr_malloc
    then (h, none)
    else if not v.reg_mr
    then (record held { smrs = held.smrs - 1 }, none)
    else (record held { regs = held.regs + 1 }, some addr)

-- `dhmp_task` of a read or a write.
pub record Task : Type 0 where
  pub done_flag : Bool
  pub sge : Sge

abbrev new_task : ℕ → ℕ → Task
new_task addr len = record { done_flag = false; sge = record { addr = addr; length = len } }

-- `dhmp_read_task_create`; the inner `none` is NULL, the outer one the use of a NULL `smr`.
unfoldable pub dhmp_read_task_create : Bool → Host → Option ℕ → ℕ → Option (Host × Option Task)
dhmp_read_task_create malloc h smr len =
    let filled =
      smr >>= λ (addr : ℕ). some (record h { tasks = h.tasks + 1 }, some (new_task addr len)) in
    if not malloc then some (h, none) else filled

-- `dhmp_write_task_create`
unfoldable pub dhmp_write_task_create : Bool → Host → Option ℕ → ℕ → Option (Host × Option Task)
dhmp_write_task_create malloc h smr len =
    let filled =
      smr >>= λ (addr : ℕ). some (record h { tasks = h.tasks + 1 }, some (new_task addr len)) in
    if not malloc then some (h, none) else filled

-- What a request does to the two memories when it is carried out.
unfoldable pub carry_out_read : Host → ℕ → ℕ → Task → Host
carry_out_read h trans addr t = record h {
  memory = write_at h.memory t.sge.addr (remote_read h.remote trans addr t.sge.length);
}

unfoldable pub carry_out_write : Host → ℕ → ℕ → Task → Host
carry_out_write h trans addr t = record h {
  remote = remote_write h.remote trans addr (read_at h.memory t.sge.addr t.sge.length);
}

-- `ibv_dereg_mr(smr->mr); free(smr);`
abbrev pub release : Host → Host
release h = record h { smrs = h.smrs - 1; regs = h.regs - 1 }

-- `dhmp_rdma_read`. `none` is a wait that does not end, or undefined behaviour.
unfoldable pub dhmp_rdma_read : Verbs → Host → ℕ → ℕ → ℕ → ℕ → ℕ → Option (Host × Ending)
dhmp_rdma_read v h trans mr_addr local_addr len offset =
    let (held, smr) = dhmp_get_mr_from_send_list v h local_addr in
    dhmp_read_task_create v.task_malloc held smr len >>= λ (t : Host × Option Task). elim t.1 [
      | none ↦ some (t.0, failure)
      | some task ↦
          if not v.posted
          then some (t.0, failure)
          else if not v.completed
          then none
          else some (release (carry_out_read t.0 trans ((mr_addr + offset) % word) task), success)
    ]

-- `dhmp_rdma_write`
unfoldable pub dhmp_rdma_write : Verbs → Host → ℕ → ℕ → ℕ → ℕ → ℕ → Option (Host × Ending)
dhmp_rdma_write v h trans mr_addr local_addr len offset =
    let (held, smr) = dhmp_get_mr_from_send_list v h local_addr in
    dhmp_write_task_create v.task_malloc held smr len >>= λ (t : Host × Option Task). elim t.1 [
      | none ↦ some (t.0, failure)
      | some task ↦
          if not v.posted
          then some (t.0, exits)
          else if not v.completed
          then none
          else some (release (carry_out_write t.0 trans ((mr_addr + offset) % word) task), success)
    ]

-- `init_read_mr`, of a buffer at `addr`: the block of the registration, with its address if the memory
-- could be registered. `none` is the use of a NULL that malloc has returned.
unfoldable pub init_read_mr : Bool → Bool → Bool → Host → ℕ → ℕ → Option (Host × Option ℕ)
init_read_mr mr_malloc buf_malloc reg h addr buffer_size =
    let held = record h {
      memory = write_at h.memory addr (replicate buffer_size 0);
      smrs = h.smrs + 1;
    } in
    if not (mr_malloc && buf_malloc)
    then none
    else if not reg
    then some (held, none)
    else some (record held { regs = held.regs + 1 }, some addr)

-- `dhmp_rdma_read_after_write`: `w` is for the read of the last byte into `read_mr`, which needs no new
-- registration. The requests of one queue pair are carried out in their order.
unfoldable pub dhmp_rdma_read_after_write :
    Verbs → Verbs → Host → ℕ → ℕ → ℕ → ℕ → Option ℕ → Option (Host × Ending)
dhmp_rdma_read_after_write v w h trans mr_addr local_addr len read_mr =
    let (held, smr) = dhmp_get_mr_from_send_list v h local_addr in
    dhmp_write_task_create v.task_malloc held smr len >>= λ (t : Host × Option Task). elim t.1 [
      | none ↦ some (t.0, failure)
      | some write_task ↦
          dhmp_read_task_create w.task_malloc t.0 read_mr 1 >>= λ (u : Host × Option Task).
          elim u.1 [
            | none ↦ some (u.0, failure)
            | some read_task ↦
                if not (v.posted && w.posted)
                then some (u.0, exits)
                else if not (v.completed && w.completed)
                then none
                else some (
                  carry_out_read (carry_out_write u.0 trans mr_addr write_task) trans
                      ((mr_addr + len + (word - 1)) % word) read_task,
                  success,
                )
          ]
    ]
