-- ===== src/Schema.antt =====
-- src/schema: JSON-RPC 2.0 and MCP on top of `Value`.
pub mod JsonRpc
pub mod Mcp
