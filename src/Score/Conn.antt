-- ===== src/Score/Conn.antt =====
-- connections.go, intel.go and volume.go: what the score reads of a connection. A nil pointer is
-- `none`. `Floats` is Go's float64: its type, and the tests and formats that are used on it.
use efe_process_monitor.Common.{ℕ, Bool, Option, [], ◌∷◌, ◌++◌, List, if◌then◌else◌}
use efe_process_monitor.Common.Ints.{ℤ}
use efe_process_monitor.Common.Texts.{Text, codes}

pub record Floats : Type 1 where
  pub F : Type 0
  pub lt_1024 : F → Bool
  pub div_1024 : F → F
  pub fixed_0 : F → Text  -- Sprintf("%.0f")
  pub fixed_1 : F → Text  -- Sprintf("%.1f")

pub record Signature : Type 0 where
  pub status : Text
  pub signer : Text
  pub trusted : Bool

pub record Enrichment : Type 0 where
  pub vt_malicious : Option ℤ
  pub abuse_score : Option ℤ
  pub tor : Bool
  pub c2 : Bool
  pub threat_fox : Text
  pub spamhaus : Bool
  pub vulns : List Text
  pub provider : Text

pub record ProcDetails : Type 0 where
  pub bad_spawn : Text
  pub cred_files : ℕ
  pub exec_anomalies : List Text

module _ (fl : Floats) where
  open fl use {F, lt_1024, div_1024, fixed_0, fixed_1}

  pub record Conn : Type 0 where
    pub exe : Text
    pub remote_ip : Text
    pub known : Text
    pub vt : Text
    pub suspicious : Bool
    pub untrusted : Bool
    pub susp_port : Bool
    pub rate_out : F
    pub high_egress : Bool
    pub cpu : F
    pub high_cpu : Bool
    pub sig : Signature
    pub whitelist : Bool
    pub ip_whitelist : Bool
    pub partial : Bool
    pub enrich : Option Enrichment
    pub details : Option ProcDetails
    pub breakdown : Text
    pub breakdown_code : Text

  human_rate_from : F → List Text → Text
  human_rate_from f [] = fixed_1 f ++ codes " TB"
  human_rate_from f (u ∷ us) =
      let larger = human_rate_from (div_1024 f) us in
      if lt_1024 f then fixed_0 f ++ (codes " " ++ u) else larger

  unfoldable pub human_rate : F → Text
  unfolding human_rate_from
  human_rate bps = human_rate_from bps (codes "B" ∷ codes "KB" ∷ codes "MB" ∷ codes "GB" ∷ [])
