-- ===== src/Volume/Sustained.antt =====
-- A high rate is one that lasted.
use efe_process_monitor.Common.{ℕ, ◌-◌, ◌≤◌, ◌≡◌, true, false, leb, arith}
use efe_process_monitor.Monitor.Beacon.{Reals, number}
use efe_process_monitor.Volume.{
  IoSample, high_egress_bytes_per_sec, stamp, measure, is_reused, advance,
}

module _ (r : Reals) where
  -- A new reading marks the outbound rate of a process as high only if the counters have not
  -- fallen, the rate of this interval is over the threshold, and that of the interval before was
  -- counted as over it too: one spike is not enough.
  pub advance_sustained :
      (num_cpu now bytes_in bytes_out : ℕ) (cpu : r.F) (s : IoSample r)
      → s.have_first ≡ true
      → leb now s.at ≡ false
      → (advance r num_cpu now bytes_in bytes_out cpu s).rate.high_egress ≡ true
      → (is_reused r bytes_in bytes_out cpu s ≡ false)
        × (r.lt
              (r.div (number r (bytes_out - s.bytes_out)) (r.of_ratio (now - s.at) 1000000000))
              (number r high_egress_bytes_per_sec)
            ≡ false)
        × (1 ≤ s.hot)
  unfolding advance stamp measure
  advance_sustained num_cpu now bytes_in bytes_out cpu s h k e = ground arith
