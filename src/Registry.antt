-- ===== src/Registry.antt =====
-- The registries of src/libserver/registry.
pub mod Character
pub mod Horse
