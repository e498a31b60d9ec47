-- ===== src/Coordinator.antt =====
-- graph-engine/bin/graph-coordinator/src: the process that clients query.
pub mod Convert
pub mod Rpc
pub mod Results
pub mod Service
