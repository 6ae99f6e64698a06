-- ===== src/Topology.antt =====
-- src/hil_controller/topology
pub mod Rename
