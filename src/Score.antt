-- ===== src/Score.antt =====
-- The threat score (connections.go) and the text in which its reasons are kept.
pub mod Conn
pub mod Reasons
pub mod Threat
