-- ===== src/Intel.antt =====
-- intel.go: what is known of a remote address. The feeds, the cache of answers and the one lookup at
-- a time for an address.
pub mod Feeds
pub mod Rows
pub mod Cache
pub mod Lookups
pub mod Provider
