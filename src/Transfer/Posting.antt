-- ===== src/Transfer/Posting.antt =====
-- src/mid_rdma_transport.c, src/mid_rdma_task.c: the posted buffers.
use rdma_middleware.Prelude.{
  ℕ, zero, suc, ◌+◌, ◌*◌, ◌/◌, ◌≤◌, ◌<◌, ◌≡◌, refl, ap, sym, ◌∙◌, Bool, true, false, List, [], ◌∷◌,
  ◌++◌, length, append_assoc, append_nil, some, get_elem?, arith, if◌then◌else◌,
}
use rdma_middleware.Transfer.{
  Sge, Receive, recv_region_size, single_norm_recv_region, single_poll_recv_region,
  is_past_connected, dhmp_recv_task_create, dhmp_post_recv, post_from, dhmp_post_all_recv,
}

abbrev buffers : ℕ → ℕ → ℕ → List Sge
buffers single zero i = []
buffers single (suc n) i = dhmp_recv_task_create (i * single) ∷ buffers single n (i + 1)

post_from_lem :
    (ok : ℕ → Bool) (single n i : ℕ) (r : Receive)
    → ((j : ℕ) → ok j ≡ true)
    → is_past_connected r.trans_state ≡ false
    → post_from ok single n i r ≡ record r { posted = r.posted ++ buffers single n i }
unfolding post_from dhmp_post_recv
post_from_lem ok single zero i r all up =
    ap (λ t. record r { posted = t }) (sym (append_nil r.posted))
post_from_lem ok single (suc n) i r all up =
    rw (up, all i)
      (post_from_lem ok single n (i + 1)
          (record r { posted = r.posted ++ (dhmp_recv_task_create (i * single) ∷ []) }) all up
        ∙ ap (λ t. record r { posted = t })
            (append_assoc r.posted (dhmp_recv_task_create (i * single) ∷ [])
              (buffers single n (i + 1))))

length-buffers : (single n i : ℕ) → length (buffers single n i) ≡ n
length-buffers single zero i = refl
length-buffers single (suc n) i = ap suc (length-buffers single n (i + 1))

get_elem?-buffers :
    (single n i k : ℕ)
    → k < n
    → get_elem? (buffers single n i) k ≡ some (dhmp_recv_task_create ((i + k) * single))
get_elem?-buffers single zero i k h = absurd (omega arith)
get_elem?-buffers single (suc n) i zero h = let e : i + 0 ≡ i = omega arith in rw e refl
get_elem?-buffers single (suc n) i (suc k) h =
    let e : i + suc k ≡ i + 1 + k = omega arith in
    rw e (get_elem?-buffers single n (i + 1) k (omega arith))

abbrev pub single_of : Receive → ℕ
single_of r = if r.is_poll_qp then single_poll_recv_region else single_norm_recv_region

-- On a transport that is not past its connection and has nothing posted, where every task can be allocated
-- and every `ibv_post_recv` succeeds, `dhmp_post_all_recv` posts buffers one behind the other, as many as
-- the receive region has room for: 8 for a polled queue pair and 8192 for another. Each is taken to be of
-- 64 KiB, of a polled queue pair too, and lies inside the region and before the next one.
pub dhmp_post_all_recv_lem :
    (ok : ℕ → Bool) (r : Receive) (k : ℕ)
    → ((j : ℕ) → ok j ≡ true)
    → is_past_connected r.trans_state ≡ false
    → r.posted ≡ []
    → k < recv_region_size / single_of r
    → let posted = (dhmp_post_all_recv ok r).posted in
      (length posted ≡ (if r.is_poll_qp then 8 else 8192))
      × (get_elem? posted k
          ≡ some (record { addr = k * single_of r; length = single_norm_recv_region }))
      × (k * single_of r + single_norm_recv_region ≤ (k + 1) * single_of r)
      × ((k + 1) * single_of r ≤ recv_region_size)
unfolding dhmp_post_all_recv dhmp_recv_task_create
dhmp_post_all_recv_lem ok r k every up none_posted h =
    let n : ℕ = recv_region_size / single_of r in
    let all = ap (λ t. t.posted) (post_from_lem ok (single_of r) n 0 r every up) in
    let base : (r.posted ++ buffers (single_of r) n 0) ≡ buffers (single_of r) n 0 =
      rw none_posted refl in
    let start : 0 + k ≡ k = omega arith in
    (
      ap length (all ∙ base) ∙ length-buffers (single_of r) n 0 ∙ ground arith,
      ap (λ t. get_elem? t k) (all ∙ base)
          ∙ get_elem?-buffers (single_of r) n 0 k h
          ∙ ap (λ t. some (dhmp_recv_task_create (t * single_of r))) start,
      ground arith,
      ground arith,
    )
