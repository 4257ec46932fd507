-- ===== src/Ipc.antt =====
-- internal/ipc/router.go: the handlers of the main process, one to a channel, and message ports.
pub mod Router
pub mod Ports
