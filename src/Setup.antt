-- ===== src/Setup.antt =====
-- src/dhmp_config.c, src/mid_rdma_init.c, src/mid_rdma_utils.c, test/test.c: the start of a node, from its
-- configuration to its place in the chain and its connections.
pub mod Config
pub mod Slots
pub mod Servers
pub mod Current
pub mod Chain
pub mod Links
pub mod Server
pub mod Serving
