-- ===== src/Audit.antt =====
-- audit_parse.go: the parsers of the audit. Each takes the text that a tool printed or a file holds.
pub mod Accounts
pub mod Registry
pub mod Services
pub mod Sockets
pub mod Units
pub mod Kernel
pub mod HostsFile
