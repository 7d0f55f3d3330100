-- ===== src/Intel/Rows/Found.antt =====
-- What the feeds' texts are read as.
use efe_process_monitor.Common.{
  ◌≡◌, ◌↔◌, inl, inr, refl, subst, Bool, true, Option, none, some, [], ◌∷◌, List, list_eq, nat_eq,
  ◌=?◌, any, if◌then◌else◌, In, arith, Bool-cases, Option-cases,
}
use efe_process_monitor.Common.Texts.{Text, trim_space}
use efe_process_monitor.Common.Cuts.{lines}
use efe_process_monitor.Common.Maps.{Map, lookup, insert, lookup-insert}
use efe_process_monitor.Intel.Rows.{
  columns, row_pair, threat_fox_rows, parse_threat_fox, line_net, nets_of, parse_spamhaus,
}

module _ (split_host_port : Text → Option Text) where
  -- The label of the last row of an address, if it has a row.
  pub last_label : Text → List (List Text) → Option Text
  last_label host [] = none
  last_label host (row ∷ rows) = elim (last_label host rows) [
    | some label ↦ some label
    | none ↦ elim (row_pair split_host_port (columns row)) [
      | none ↦ none
      | some (other, label) ↦ if other =? host then some label else none
    ]
  ]

  abbrev pub or_else : Option Text → Option Text → Option Text
  or_else none o = o
  or_else (some v) o = some v

  lookup-threat_fox_rows :
      (host : Text) (rows : List (List Text)) (m : Map Text Text)
      → lookup host (threat_fox_rows split_host_port rows m)
        ≡ or_else (last_label host rows) (lookup host m)
  unfolding threat_fox_rows last_label
  lookup-threat_fox_rows host [] m = refl
  lookup-threat_fox_rows host (row ∷ rows) m =
      elim (Option-cases (row_pair split_host_port (columns row))) [
        | inl n ↦ let ih = lookup-threat_fox_rows host rows m in rw n (ground (arith, ih))
        | inr ((other, label), n) ↦
            let ih = lookup-threat_fox_rows host rows (insert other label m) in
            rw n (ground (arith, ih, lookup-insert host other label m))
      ]

  -- An address has, in the map that parseThreatFox makes, the label of the last row that names it with
  -- a port, whatever other rows stand between; an address that no such row names is not in the map.
  pub lookup-parse_threat_fox :
      (read_csv : Text → List (List Text)) (host body : Text)
      → lookup host (parse_threat_fox split_host_port read_csv body)
        ≡ last_label host (read_csv body)
  unfolding parse_threat_fox lookup
  lookup-parse_threat_fox read_csv host body =
      ground (arith, lookup-threat_fox_rows host (read_csv body) [])

module _ {Net Addr : Type 0} (read_cidr : Text → Option Text) (parse_cidr : Text → Option Net)
    (inside : Net → Addr → Bool) (a : Addr) where
  -- A line holds a network that the address lies in.
  abbrev pub Covers : Text → Type 0
  Covers ln =
      (n : Net) × (line_net read_cidr parse_cidr (trim_space ln) ≡ some n) × (inside n a ≡ true)

  nets_of-found :
      (lns : List Text)
      → any (λ n. inside n a) (nets_of read_cidr parse_cidr lns) ≡ true
      → (ln : Text) × In ln lns × Covers ln
  unfolding nets_of
  nets_of-found [] h = absurd (cc)
  nets_of-found (ln ∷ lns) h = elim (Option-cases (line_net read_cidr parse_cidr (trim_space ln))) [
    | inl e ↦ let (m, at, c) = nets_of-found lns (rw e at h) in (m, inr at, c)
    | inr (n, e) ↦ elim (Bool-cases (inside n a)) [
      | inl b ↦ (ln, inl refl, (n, e, b))
      | inr b ↦ let (m, at, c) = nets_of-found lns (rw b at (rw e at h)) in (m, inr at, c)
    ]
  ]

  nets_of-covered :
      (ln : Text) (lns : List Text)
      → In ln lns
      → Covers ln
      → any (λ n. inside n a) (nets_of read_cidr parse_cidr lns) ≡ true
  unfolding nets_of
  nets_of-covered ln [] at c = absurd at
  nets_of-covered ln (m ∷ lns) (inl p) (n, e, b) =
      let e' : line_net read_cidr parse_cidr (trim_space m) ≡ some n =
        subst (λ l. line_net read_cidr parse_cidr (trim_space l) ≡ some n) p e in
      rw (e', b) refl
  nets_of-covered ln (m ∷ lns) (inr at) c =
      let ih = nets_of-covered ln lns at c in
      elim (Option-cases (line_net read_cidr parse_cidr (trim_space m))) [
        | inl e ↦ rw e ih
        | inr (n, e) ↦ rw e (ground (arith, ih))
      ]

  -- An address is in one of the networks that are read of a text exactly when some line of the text
  -- holds a network that the address lies in.
  pub parse_spamhaus_iff :
      (body : Text)
      → (any (λ n. inside n a) (parse_spamhaus read_cidr parse_cidr body) ≡ true)
        ↔ ((ln : Text) × In ln (lines body) × Covers ln)
  unfolding parse_spamhaus
  parse_spamhaus_iff body =
      (nets_of-found (lines body), λ (ln, at, c). nets_of-covered ln (lines body) at c)
