-- ===== src/Lib.antt =====
-- Verification of the eFe Process Monitor: a local web panel that watches the sockets of a machine,
-- scores each connection, and reports what is new, replaced on disk or as regular as a beacon.
--
-- The program is one Go package. Its monitor loop takes a snapshot of the sockets every three
-- seconds, asks the baseline whether a binary is known, looks for beacons and publishes events; a
-- page render scores each connection from local signals and threat feeds; passive DNS names the
-- addresses; and a middleware guards the HTTP interface. The files here follow that division.
--
-- - Common: tests, lists, maps as association lists, byte text, Go's integers as they are parsed
--   and printed, and Outcome, in which a read out of range is a crash.
-- - Dns (dns.go): Name is readDNSName, Answers is parseDNSAnswers, Frame is udpPayloadOfFrame.
-- - Baseline (db.go): baselineSeen over its two tables.
-- - Network (connections.go, lan.go, hostnames.go): the tests on addresses, over package net.
-- - Ports (ports.go, connections.go): the port tables, portLabel and the path lists.
-- - Score (connections.go, volume.go): Conn is what the score reads, Threat is threatScore and
--   coverageIncomplete, Reasons is the encoding of the reasons and its rendering.
-- - Ancestry (ancestry.go): ancestryOf, suspiciousAncestry and ancestryLabel.
-- - Monitor (monitor.go): Beacon is checkBeacon, Cycle is describe, alertOnIntel and a pass of
--   monitorLoop. Cycle uses Baseline, Ports, Network and Beacon, as the loop does.
-- - Hostnames (hostnames.go, dns.go): cleanHostname, recordHostname and what calls them.
-- - Volume (volume.go): advance, the update and the sweep of the traffic samples, rateFor.
-- - Auth (auth.go, listen.go): Backoff, Sessions, Hosts, Listen, then Gate, which is
--   securityMiddleware, and Login, which is handleLogin. They pass one AuthState, which holds the
--   variables of the package.
-- - Store (store.go, db.go, config.go): Table is one map with its table, Store the three of them,
--   Restart the operator's actions and restarts of the program.
-- - Firewall (actions.go): blockIP, unblockIP, ensureNft and reapplyBlocks.
-- - Intel (intel.go): Provider is detectProvider, Feeds is when and what ipSet, tfFeed and cidrFeed
--   download, Rows is parseThreatFox, parseSpamhaus and spamhausHit, Cache is cachedIP and storeIP,
--   Lookups is enrichIP as the steps of calls that run at once.
-- - Vt (vt.go): Bucket is tokenBucket and the wait of vtWorker, Queue is enqueueHash and vtWorker as
--   steps of threads, Verdict is resolveHash, Analyze is analyzeExe of connections.go.
-- - Notify (notify.go): notify up to the sending.
-- - Timeline (timeline.go): buildTimeline. Vendor (oui.go): ouiVendor. Log (logging.go):
--   rotatingWriter and tailLog.
-- - Context (proccontext.go): sensitiveEnv, maskURLCreds and unescapeUnit.
-- - Audit (audit_parse.go): the parsers, by what they read.
-- - Settings (config.go): Env is cleanEnvValue, envKeyRe and writeEnv.
-- - Tests: the theorems on concrete inputs.
--
-- State is passed explicitly, and a function that changes a variable returns the new one; locks are
-- left out, since each operation holds its lock to its end; the write to the database that follows a
-- change of the operator's lists is taken with the change, as one step. Maps are association lists in
-- which a write replaces every pair of its key. Text is a list of bytes, in UTF-8 where the code goes
-- by characters; letter case and white space are those of ASCII, where Go folds Unicode. Times are nanoseconds, and numbers of the program stand
-- well below 2 ^ 63, so that no wrap-around is written. A score is a number of tenths of a point:
-- every weight is a whole number of them.
--
-- Some loops run on bounds. readDNSName is given 145 rounds, which are 16 jumps, 128 labels and the
-- round that returns; that this is enough is a theorem, since the end of the fuel is a crash. The
-- walk up the ancestry has the 12 steps of the source, the deletion of firewall rules its 16, and the
-- wait for a token 17 questions, which a theorem shows to be enough. The rounding of a float halves at
-- most 2046 times, once for each exponent of a float. Every other loop is structural.
--
-- What the program takes from elsewhere is a parameter: package net (Net), float64 (Floats, Reals),
-- bcrypt, base64, url.Parse, net.SplitHostPort, the random tokens, the time, the hash of a file, and
-- what the system says of a process (Procs, World), csv, JSON and CIDR readers, sorting, and the
-- commands of the firewall (run). Of base64 a theorem takes that decoding undoes
-- encoding, and of iptables what its record Iptables names; of the rest the theorems take nothing.
-- The bucket's tokens are floats that compute: multiples of 2 ^ -1074, each operation rounded
-- (Common/Floats).
--
-- Not modelled: the SQL and HTTP glue, the pages, the packet sniffers, the desktop commands, the
-- translations and the checks of the audit, which read or write the system; and for now the
-- control groups, children and activity of a process. A scanned
-- line of the settings file is taken to fit the 64 KB buffer of bufio.Scanner.
pub mod Common
pub mod Dns
pub mod Baseline
pub mod Hostnames
pub mod Monitor
pub mod Network
pub mod Ancestry
pub mod Audit
pub mod Store
pub mod Intel
pub mod Firewall
pub mod Vt
pub mod Notify
pub mod Timeline
pub mod Vendor
pub mod Log
pub mod Context
pub mod Auth
pub mod Ports
pub mod Score
pub mod Settings
pub mod Volume
mod Tests
