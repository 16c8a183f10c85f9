-- ===== src/Tools.antt =====
-- tools/: the tools that the MCP server offers.
pub mod Memory
pub mod Recall
pub mod Texts
pub mod Sample
mod Examples
