-- ===== src/Transfer/Through.antt =====
-- src/mid_rdma_transport.c: what one-sided requests that succeed have done, and what they keep.
use rdma_middleware.Prelude.{
  ℕ, ◌+◌, ◌-◌, ◌%◌, ◌≤◌, ◌<◌, ◌≡◌, refl, ap, sym, ◌∙◌, true, some, List, [], ◌∷◌, get_or, length,
  arith,
}
use rdma_middleware.Prelude.Memory.{write_at, read_at}
use rdma_middleware.Client.Addresses.{word}
use rdma_middleware.Client.Table.{Remote, remote_read, remote_write, remote_read-remote_write}
use rdma_middleware.Transfer.Frames.{length-read_at, read_at-write_at}
use rdma_middleware.Transfer.OneSided.{
  Host, Verbs, success, dhmp_get_mr_from_send_list, dhmp_read_task_create, dhmp_write_task_create,
  carry_out_read, carry_out_write, dhmp_rdma_read, dhmp_rdma_write, dhmp_rdma_read_after_write,
}

-- Every call succeeds, and the request completes.
pub record IsServed (v : Verbs) : Type 0 where
  pub smr_malloc : v.smr_malloc ≡ true
  pub reg_mr : v.reg_mr ≡ true
  pub task_malloc : v.task_malloc ≡ true
  pub posted : v.posted ≡ true
  pub completed : v.completed ≡ true

module _ (v : Verbs) (h : Host) (trans mr_addr addr len offset : ℕ) (served : IsServed v) where
  abbrev place : ℕ
  place = (mr_addr + offset) % word

  dhmp_rdma_write-served :
      dhmp_rdma_write v h trans mr_addr addr len offset
      ≡ some (
        record h {
          remote = remote_write h.remote trans place (read_at h.memory addr len);
          tasks = h.tasks + 1;
        },
        success,
      )
  unfolding dhmp_rdma_write dhmp_get_mr_from_send_list dhmp_write_task_create carry_out_write
  dhmp_rdma_write-served = ground (arith, served)

  dhmp_rdma_read-served :
      dhmp_rdma_read v h trans mr_addr addr len offset
      ≡ some (
        record h {
          memory = write_at h.memory addr (remote_read h.remote trans place len);
          tasks = h.tasks + 1;
        },
        success,
      )
  unfolding dhmp_rdma_read dhmp_get_mr_from_send_list dhmp_read_task_create carry_out_read
  dhmp_rdma_read-served = ground (arith, served)

-- When all calls succeed and the completions arrive, `dhmp_rdma_write` of bytes of the memory and then
-- `dhmp_rdma_read` from the same place of the same region return 0, and what was written is read, in the
-- bounds of the memory; every block of `dhmp_send_mr` and every registration is given back, and the two
-- blocks of the tasks are not.
pub dhmp_rdma_read-dhmp_rdma_write :
    (v w : Verbs) (h : Host) (trans mr_addr from to len offset : ℕ)
    → IsServed v
    → IsServed w
    → from + len ≤ length h.memory
    → to + len ≤ length h.memory
    → (h' : Host) × (h'' : Host) × (dhmp_rdma_write v h trans mr_addr from len offset
        ≡ some (h', success))
      × (dhmp_rdma_read w h' trans mr_addr to len offset ≡ some (h'', success))
      × (read_at h''.memory to len ≡ read_at h.memory from len)
      × (h''.remote ≡ h'.remote)
      × (h''.smrs ≡ h.smrs)
      × (h''.regs ≡ h.regs)
      × (h''.tasks ≡ h.tasks + 2)
dhmp_rdma_read-dhmp_rdma_write v w h trans mr_addr from to len offset sv sw hf ht =
    let there : ℕ = (mr_addr + offset) % word in
    let bytes : List ℕ = read_at h.memory from len in
    let h' : Host = record h {
      remote = remote_write h.remote trans there bytes;
      tasks = h.tasks + 1;
    } in
    let long : length bytes ≡ len = length-read_at h.memory from len hf in
    let back : remote_read h'.remote trans there len ≡ bytes =
      ap (remote_read h'.remote trans there) (sym long)
      ∙ remote_read-remote_write h.remote trans there bytes in
    let h'' : Host = record h' {
      memory = write_at h.memory to (remote_read h'.remote trans there len);
      tasks = h.tasks + 2;
    } in
    (
      h',
      h'',
      dhmp_rdma_write-served v h trans mr_addr from len offset sv,
      dhmp_rdma_read-served w h' trans mr_addr to len offset sw
          ∙ ap (λ n. some (record h'' { tasks = n }, success)) (omega arith),
      ap (λ b. read_at (write_at h.memory to b) to len) back
          ∙ ap (read_at (write_at h.memory to bytes) to) (sym long)
          ∙ read_at-write_at h.memory to bytes (omega (arith, long)),
      refl,
      refl,
      refl,
      refl,
    )

-- The byte read back is the last one written.
remote_read-last :
    (remote : Remote) (trans addr : ℕ) (bytes : List ℕ)
    → 0 < length bytes
    → addr + length bytes ≤ word
    → remote_read
        (remote_write remote trans addr bytes)
        trans
        ((addr + length bytes + (word - 1)) % word)
        1
      ≡ get_or bytes (length bytes - 1) 0 ∷ []
unfolding remote_read remote_write
remote_read-last remote trans addr bytes some_byte inside =
    let at : (addr + length bytes + (word - 1)) % word ≡ addr + (length bytes - 1) = omega arith in
    rw at (ground arith)

-- When all calls succeed and the completions arrive, `dhmp_rdma_read_after_write` of some bytes of the
-- memory returns 0; they are then in the memory of the other node, and the last of them has been read
-- back from there to the place of `read_mr`. Both blocks of the tasks stay, and so do the block of
-- `dhmp_send_mr` and the registration of the local bytes.
pub dhmp_rdma_read_after_write_lem :
    (v w : Verbs) (h : Host) (trans mr_addr from to len : ℕ)
    → IsServed v
    → IsServed w
    → 0 < len
    → from + len ≤ length h.memory
    → mr_addr + len ≤ word
    → let bytes = read_at h.memory from len in
      dhmp_rdma_read_after_write v w h trans mr_addr from len (some to)
      ≡ some (
        record {
          memory = write_at h.memory to (get_or bytes (len - 1) 0 ∷ []);
          remote = remote_write h.remote trans mr_addr bytes;
          tasks = h.tasks + 1 + 1;
          smrs = h.smrs + 1;
          regs = h.regs + 1;
        },
        success,
      )
unfolding dhmp_rdma_read_after_write dhmp_get_mr_from_send_list dhmp_write_task_create
    dhmp_read_task_create carry_out_read carry_out_write
dhmp_rdma_read_after_write_lem v w h trans mr_addr from to len sv sw some_byte hf inside =
    let bytes : List ℕ = read_at h.memory from len in
    let long : length bytes ≡ len = length-read_at h.memory from len hf in
    let last =
      remote_read-last h.remote trans mr_addr bytes (omega (arith, long)) (omega (arith, long)) in
    ground (arith, sv, sw, last, long)
