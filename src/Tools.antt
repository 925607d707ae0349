-- ===== src/Tools.antt =====
-- pkg/tools: the tools that an agent may call, their registry, and the user's permission.
pub mod Types
pub mod Paths
pub mod Edit
pub mod Ask
pub mod Bash
