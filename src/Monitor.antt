-- ===== src/Monitor.antt =====
-- monitor.go: the live monitor. Beacon holds the detection of regular connections, Cycle a pass of
-- the loop over two snapshots of the open sockets.
pub mod Beacon
pub mod Cycle
