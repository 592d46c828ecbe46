-- ===== src/Connection.antt =====
-- src/mid_rdma_connection.c, src/mid_rdma_utils.c: the RDMA connections of a node.
pub mod Resources
pub mod Events
pub mod Listing
pub mod Clients
pub mod Opening
pub mod Rounds
