-- ===== src/Mcp.antt =====
-- internal/mcp: the authentication of the MCP endpoint.
pub mod Auth
pub mod Outputs
pub mod Tools
pub mod Oauth
pub mod Registry
