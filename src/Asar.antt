-- ===== src/Asar.antt =====
-- internal/asar/archive.go: ASAR archives, a size, a header in JSON and the contents of files.
pub mod Pickle
pub mod Paths
pub mod Header
pub mod Image
pub mod Tests
