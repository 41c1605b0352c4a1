-- ===== src/Runtime.antt =====
-- internal/runtime: the manager of service runtimes (snapshot.go, runtime.go), its interleavings,
-- and the client of an application (multi_client.go).
pub mod Heap
pub mod Manager
pub mod System
pub mod Builder
