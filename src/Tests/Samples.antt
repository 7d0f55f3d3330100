-- ===== src/Tests/Samples.antt =====
-- Concrete values for what the program takes from libraries and from the system: enough of package
-- net to tell the addresses of the tests apart, and whole numbers in the place of float64.
use efe_process_monitor.Common.{
  ℕ, ◌+◌, ◌-◌, ◌*◌, ◌/◌, true, false, Option, none, some, [], list_eq, nat_eq, ltb, ◌=?◌,
  if◌then◌else◌,
}
use efe_process_monitor.Common.Ints.{itoa}
use efe_process_monitor.Common.Texts.{Text, codes, starts_with}
use efe_process_monitor.Network.{Net}
use efe_process_monitor.Score.Conn.{Floats, Conn, Enrichment}
use efe_process_monitor.Monitor.Beacon.{Reals}

abbrev text_ip : Text → Option Text
text_ip t = if starts_with t (codes "1") then some t else none

abbrev pub sample_net : Net
sample_net = record {
  Ip = Text;
  parse_ip = text_ip;
  is_private = λ a. starts_with a (codes "10.");
  is_loopback = λ a. starts_with a (codes "127.");
  is_link_local_unicast = λ a. starts_with a (codes "169.254.");
  is_unspecified = λ a. a =? codes "0.0.0.0";
  is_multicast = λ a. false;
  is_link_local_multicast = λ a. false;
  is_broadcast = λ a. false;
}

abbrev pub sample_reals : Reals
sample_reals = record {
  F = ℕ;
  of_ratio = λ a b. a / b;
  add = λ a b. a + b;
  sub = λ a b. a - b;
  mul = λ a b. a * b;
  div = λ a b. a / b;
  sqrt = λ a. a;
  round = λ a. a;
  lt = ltb;
  fixed_0 = itoa;
}

abbrev pub sample_floats : Floats
sample_floats = record {
  F = ℕ;
  lt_1024 = λ a. ltb a 1024;
  div_1024 = λ a. a / 1024;
  fixed_0 = itoa;
  fixed_1 = itoa;
}

abbrev pub same_text : Text → Text
same_text t = t

-- A public address on the list of control servers.
abbrev pub sample_enrichment : Enrichment
sample_enrichment = record {
  vt_malicious = none;
  abuse_score = none;
  tor = false;
  c2 = true;
  threat_fox = [];
  spamhaus = false;
  vulns = [];
  provider = [];
}

abbrev pub sample_conn : Option Enrichment → Conn sample_floats
sample_conn e = record {
  exe = codes "/opt/tool/bin";
  remote_ip = codes "198.51.100.7";
  known = codes "HTTPS";
  vt = codes "NOT_IN_VT";
  suspicious = false;
  untrusted = false;
  susp_port = false;
  rate_out = 0;
  high_egress = false;
  cpu = 0;
  high_cpu = false;
  sig = record { status = codes "Valid"; signer = []; trusted = true };
  whitelist = false;
  ip_whitelist = false;
  partial = false;
  enrich = e;
  details = none;
  breakdown = [];
  breakdown_code = [];
}
