-- ===== src/Tests.antt =====
-- Tests: the theorems on concrete inputs.
mod Samples
mod Dns
mod Auth
mod Detection
mod Live
mod Operator
mod Feeds
mod Tools
mod Records
