-- ===== src/Dns.antt =====
-- The passive DNS reader (dns.go): compressed names, whole responses, and the UDP frame filter.
pub mod Name
pub mod Answers
pub mod Frame
