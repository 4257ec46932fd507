-- ===== src/GlobalShortcut.antt =====
-- internal/globalshortcut: accelerators, as `Ctrl+Shift+K`, and their registry.
pub mod Accelerator
pub mod Registry
