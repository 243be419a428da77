-- ===== src/Server.antt =====
-- internal/server and internal/auth and internal/docker: the parts of the server whose logic is its own,
-- and not that of Docker, the database or the framework.
pub mod Limiter
pub mod ApiKeys
pub mod Rows
pub mod Tokens
pub mod Sessions
pub mod Access
pub mod Passwords
pub mod Accounts
pub mod StackStatus
pub mod Updates
pub mod LogLines
