-- ===== src/Client.antt =====
-- src/mid_client_work.c, src/mid_rdma_top_api.c: the client that reads and writes the memory of other
-- nodes.
pub mod Murmur
pub mod Addresses
pub mod Table
pub mod Works
pub mod Idle
pub mod Access
pub mod Messages
pub mod Granting
