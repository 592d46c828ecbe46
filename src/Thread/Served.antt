-- ===== src/Thread/Served.antt =====
-- src/mid_client_work.c: the works that the thread gets done.
use rdma_middleware.Prelude.{
  ℕ, ◌<◌, ◌^◌, ◌≡◌, ◌≢◌, Bool, true, false, Option, some, none, List, [], ◌∷◌, length,
}
use rdma_middleware.Prelude.Results.{◌>>=◌}
use rdma_middleware.Client.Works.{Client, Request, completes}
use rdma_middleware.Client.Idle.{IsIdleClient}
use rdma_middleware.Thread.{
  Work, malloc_work, read_work, write_work, close_work, other_work, Result, handle_work,
}

-- What a client learns from the network.
abbrev pub network : Client → (ℕ → Bool) × (ℕ → ℕ → ℕ → Request)
network c = (c.connected, c.rdma)

-- The works whose handlers return: a block must be asked for over a live connection, be of a positive size,
-- and be granted; the request of a read or a write must complete, wherever in the block it goes to.
abbrev pub IsServed : (ℕ → Bool) × (ℕ → ℕ → ℕ → Request) → Work → Type 0
IsServed net (malloc_work trans len allocated) =
    (net.0 trans ≡ true) × (0 < len) × (allocated ≢ none)
IsServed net (read_work trans dhmp_addr local len offset) =
    (len < 2 ^ 32) × ((at : ℕ) → net.1 trans at len ≡ completes)
IsServed net (write_work trans dhmp_addr bytes offset) =
    (length bytes < 2 ^ 32) × ((at : ℕ) → net.1 trans at (length bytes) ≡ completes)
IsServed net (close_work trans) = Unit {0}
IsServed net other_work = Unit {0}
IsServed net _ = true ≡ false

abbrev pub AreServed : (ℕ → Bool) × (ℕ → ℕ → ℕ → Request) → List Work → Type 0
AreServed net [] = Unit {0}
AreServed net (w ∷ ws) = IsServed net w × AreServed net ws

-- What a work that is served leaves.
abbrev Handled : Client → Work → Type 0
Handled c w =
    (r : Client × Result) × (handle_work c w ≡ some r)
    × IsIdleClient r.0
    × (network r.0 ≡ network c)

-- The handlers one after the other, each with what the one before left.
abbrev pub handle_all : Client → List Work → Option (Client × List Result)
handle_all c [] = some (c, [])
handle_all c (w ∷ ws) = handle_work c w >>= λ (r : Client × Result).
    handle_all r.0 ws >>= λ (t : Client × List Result). some (t.0, r.1 ∷ t.1)
