-- ===== src/Plugin.antt =====
-- The plugin contract (plugin/plugin.go), the configuration accessor and the registry.
pub mod MapConfig
pub mod Registry
pub mod Contract
