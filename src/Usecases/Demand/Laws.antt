-- ===== src/Usecases/Demand/Laws.antt =====
-- Where a demand is, in the core's numbers and in the edge's words; who may change it; what its
-- screen shows; and whose words a message is.
pub mod Progress
pub mod Writes
pub mod Cockpit
