-- ===== src/Migration.antt =====
-- The migration from NetBox's built-in Custom Scripts (netbox_scripts/migration): what is planned,
-- and the run that carries it out.
pub mod Plan
pub mod Run
pub mod Cutover
