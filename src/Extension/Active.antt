-- ===== src/Extension/Active.antt =====
-- Which flows are active: the ends of the up links, and of the flows, among the entities.
mod Links
pub mod Entities
pub mod Flows
