-- ===== src/Metadata.antt =====
-- internal/metadata: domains (domain.go), applications (model.go), contracts (contracts.go) and the
-- Consul store (consul_store.go).
pub mod Domain
pub mod Model
pub mod Backend
pub mod Consul
pub mod Contracts
pub mod Store
pub mod Watch
