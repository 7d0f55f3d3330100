-- ===== src/Monitor/Beacon.antt =====
-- monitor.go: pruneBeacons and checkBeacon. `Reals` is Go's float64, with the functions of package
-- math; times are seconds.
pub mod Laws
use efe_process_monitor.Common.{
  ℕ, ◌-◌, Bool, true, false, not, ◌&&◌, ◌||◌, Option, none, some, [], ◌∷◌, ◌++◌, List, list_eq,
  nat_eq, length, ltb, drop, ◌=?◌, if◌then◌else◌, map,
}
use efe_process_monitor.Common.Maps.{Map, lookup, insert, keep}
use efe_process_monitor.Common.Texts.{Text, codes}

pub record Reals : Type 1 where
  pub F : Type 0
  pub of_ratio : ℕ → ℕ → F  -- a literal or a count, as a fraction
  pub add : F → F → F
  pub sub : F → F → F
  pub mul : F → F → F
  pub div : F → F → F
  pub sqrt : F → F
  pub round : F → F
  pub lt : F → F → Bool
  pub fixed_0 : F → Text  -- Sprintf("%.0f")

abbrev pub max_samples : ℕ
max_samples = 8

abbrev pub beacon_min_samples : ℕ
beacon_min_samples = 4

module _ (r : Reals) where
  abbrev pub number : ℕ → r.F
  number n = r.of_ratio n 1

  abbrev pub zero_f : r.F
  zero_f = number 0

  -- Two hours without a sample.
  unfoldable pub is_idle : r.F → List r.F → Bool
  is_idle now [] = true
  is_idle now (t ∷ []) = r.lt (number 7200) (r.sub now t)
  is_idle now (t ∷ (u ∷ ts)) = is_idle now (u ∷ ts)

  pub prune_beacons : r.F → Map Text (List r.F) → Map Text (List r.F)
  prune_beacons now track = keep (λ k ts. not (is_idle now ts)) track

  pub gaps_of : List r.F → List r.F
  gaps_of [] = []
  gaps_of (t ∷ []) = []
  gaps_of (t ∷ (u ∷ ts)) = r.sub u t ∷ gaps_of (u ∷ ts)

  pub sum_from : r.F → List r.F → r.F
  sum_from acc [] = acc
  sum_from acc (g ∷ gs) = sum_from (r.add acc g) gs

  pub mean_of : List r.F → r.F
  mean_of gs = r.div (sum_from zero_f gs) (number (length gs))

  -- The period of samples that come regularly, and 0 of others.
  pub period_of : List r.F → r.F
  period_of ts =
      let gaps = gaps_of ts in
      let mean = mean_of gaps in
      let varc = mean_of (map (λ g. r.mul (r.sub g mean) (r.sub g mean)) gaps) in
      if ltb (length ts) beacon_min_samples
      then zero_f
      else if r.lt mean (number 5)
      then zero_f
      else if r.lt (r.div (r.sqrt varc) mean) (r.of_ratio 15 100)
      then mean
      else zero_f

  abbrev pub beacon_key : Text → Text → Text
  beacon_key exe remote_ip = exe ++ (b'|' ∷ remote_ip)

  abbrev pub samples : Option (List r.F) → List r.F
  samples none = []
  samples (some ts) = ts

  abbrev pub last_samples : List r.F → List r.F
  last_samples ts = if ltb max_samples (length ts) then drop (length ts - max_samples) ts else ts

  pub check_beacon : Text → Text → r.F → Map Text (List r.F) → Map Text (List r.F) × r.F
  check_beacon exe remote_ip now track =
      let key = beacon_key exe remote_ip in
      let pruned = prune_beacons now track in
      let ts = last_samples (samples (lookup key pruned) ++ now ∷ []) in
      if (exe =? []) || (remote_ip =? [])
      then (track, zero_f)
      else (insert key ts pruned, period_of ts)
