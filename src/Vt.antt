-- ===== src/Vt.antt =====
-- vt.go: the bucket of requests to VirusTotal, the queue of file hashes and what is saved of an answer.
pub mod Bucket
pub mod Queue
pub mod Verdict
pub mod Analyze
