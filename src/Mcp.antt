-- ===== src/Mcp.antt =====
-- internal/mcp: the catalog of MCP servers, tools and keys (model.go), its mutations and the
-- authorization of requests (service.go).
pub mod Model
pub mod Validate
pub mod Mutate
pub mod Build
pub mod Serve
pub mod Service
pub mod Call
pub mod View
