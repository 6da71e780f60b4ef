-- ===== src/Inventory.antt =====
-- pkg/inventory/wiz: the inventory of cloud resources, read from the saved reports of Wiz.
pub mod Tests
pub mod Columns
pub mod Transforms
pub mod Names
pub mod Tags
pub mod Client
pub mod Source
pub mod Report
pub mod Http
