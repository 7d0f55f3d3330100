-- ===== src/Intel/Rows.antt =====
-- intel.go: parseThreatFox, parseSpamhaus and spamhausHit. `split_host_port` stands for
-- net.SplitHostPort without the port, `read_cidr` for json.Unmarshal of a row into its field cidr,
-- `parse_cidr` for net.ParseCIDR, `parse_ip` for net.ParseIP and `inside` for IPNet.Contains; `none`
-- is an error.
pub mod Found
use efe_process_monitor.Common.{
  ℕ, Bool, true, false, not, ◌&&◌, ◌||◌, Option, none, some, [], ◌∷◌, List, list_eq, nat_eq, any,
  ◌=?◌, if◌then◌else◌,
}
use efe_process_monitor.Common.Texts.{Text, codes, trim_space, contains}
use efe_process_monitor.Common.Cuts.{lines}
use efe_process_monitor.Common.Maps.{Map, insert}
use efe_process_monitor.Intel.Feeds.{Feed, refresh}

-- The malware's name, or the kind of threat where there is none.
abbrev pub label_of : Text → Text → Text
label_of threat malware = if (malware =? []) || (malware =? codes "None") then threat else malware

-- The third, fourth, fifth and eighth of at least eight columns.
abbrev pub columns : List Text → Option (Text × Text × Text × Text)
columns (a ∷ b ∷ ioc ∷ kind ∷ threat ∷ c ∷ d ∷ malware ∷ rest) = some (ioc, kind, threat, malware)
columns _ = none

module _ (split_host_port : Text → Option Text) where
  abbrev pub host_of : Text → Option Text
  host_of ioc = elim (split_host_port ioc) [
    | none ↦ none
    | some host ↦ if host =? [] then none else some host
  ]

  -- The address and the label of a row, if the row is of an address and a port.
  abbrev pub row_pair : Option (Text × Text × Text × Text) → Option (Text × Text)
  row_pair none = none
  row_pair (some (ioc, kind, threat, malware)) =
      if not (kind =? codes "ip:port")
      then none
      else elim (host_of ioc) [ none ↦ none | some host ↦ some (host, label_of threat malware) ]

  abbrev pub add_pair : Option (Text × Text) → Map Text Text → Map Text Text
  add_pair none m = m
  add_pair (some (host, label)) m = insert host label m

  pub threat_fox_rows : List (List Text) → Map Text Text → Map Text Text
  threat_fox_rows [] m = m
  threat_fox_rows (row ∷ rows) m = threat_fox_rows rows (add_pair (row_pair (columns row)) m)

  -- `read_csv` is csv.Reader.ReadAll, which gives no rows where it fails.
  pub parse_threat_fox : (Text → List (List Text)) → Text → Map Text Text
  parse_threat_fox read_csv body = threat_fox_rows (read_csv body) []

-- `"cidr"`
abbrev pub cidr_key : Text
cidr_key = 34 ∷ (99 ∷ (105 ∷ (100 ∷ (114 ∷ (34 ∷ [])))))

module _ {Net : Type 0} (read_cidr : Text → Option Text) (parse_cidr : Text → Option Net) where
  -- The network of a line, if it has one.
  abbrev pub line_net : Text → Option Net
  line_net ln = if not (contains ln cidr_key) then none else elim (read_cidr ln) [
    | none ↦ none
    | some cidr ↦ if cidr =? [] then none else parse_cidr cidr
  ]

  abbrev pub add_net : Option Net → List Net → List Net
  add_net none nets = nets
  add_net (some n) nets = n ∷ nets

  pub nets_of : List Text → List Net
  nets_of [] = []
  nets_of (ln ∷ lns) = add_net (line_net (trim_space ln)) (nets_of lns)

  pub parse_spamhaus : Text → List Net
  parse_spamhaus body = nets_of (lines body)

module _ {Net Addr : Type 0} (read_cidr : Text → Option Text) (parse_cidr : Text → Option Net)
    (parse_ip : Text → Option Addr) (inside : Net → Addr → Bool) where
  abbrev pub some_inside : Addr → Option (List Net) → Bool
  some_inside a none = false
  some_inside a (some nets) = any (λ n. inside n a) nets

  -- The answer, and the feed after it.
  pub spamhaus_hit : ℕ → ℕ → Option Text → Text → Feed Net → Bool × Feed Net
  spamhaus_hit now later reply ip f = elim (parse_ip ip) [
    | none ↦ (false, f)
    | some a ↦
        let g = refresh (parse_spamhaus read_cidr parse_cidr) false now later reply f in
        (some_inside a g.entries, g)
  ]
