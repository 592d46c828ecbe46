-- ===== src/Buffers/Granted.antt =====
-- src/mid_rdma_recv_handler.c: what the handler of a request for a ring leaves behind.
use rdma_middleware.Prelude.{◌≡◌, refl, true, false, ◌&&◌, some, replicate, if◌then◌else◌, arith}
use rdma_middleware.Log.Geometry.{total_size}
use rdma_middleware.Log.Writer.{LocalRingbuff}
use rdma_middleware.Connection.Resources.{Region, dhmp_memory_register}
use rdma_middleware.Buffers.{
  Outcomes, Receiving, nothing_held, empty_ring, dhmp_malloc_buff_request_handler,
}

abbrev pub registered : Region
registered = record { addr = true; mr = true }

-- A node that has a ring, cleared and empty, and holds both registered blocks.
abbrev pub ring_held : Receiving
ring_held = record {
  mate = true;
  buff_mate_mr = registered;
  ring = some (empty_ring (replicate total_size 0));
  buff_mr = registered;
}

-- The first request is granted exactly if both blocks can be allocated and registered, the ring then
-- being empty and cleared to zero; otherwise an error is answered and nothing stays allocated or
-- registered. A request to a node that has a ring is granted and changes nothing, whatever the
-- outcomes would be. Assumed is that the first small `malloc`, which the code does not test, succeeds.
pub dhmp_malloc_buff_request_handler_lem :
    (o again : Outcomes) (r : Receiving) (ring : LocalRingbuff)
    → o.mate_malloc ≡ true
    → r.mate ≡ true
    → r.ring ≡ some ring
    → (dhmp_malloc_buff_request_handler o nothing_held
        ≡ some (
            if (o.mate_block && o.mate_reg) && (o.ring_block && o.ring_reg)
            then (ring_held, true)
            else (nothing_held, false)))
      × (dhmp_malloc_buff_request_handler again r ≡ some (r, true))
unfolding dhmp_malloc_buff_request_handler dhmp_memory_register
dhmp_malloc_buff_request_handler_lem o again r ring h m e = (ground arith, rw (e, m) refl)
