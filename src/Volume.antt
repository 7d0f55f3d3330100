-- ===== src/Volume.antt =====
-- volume.go: ioSample and advance, the state that sampleProcessIO keeps for a process, and rateFor.
-- Times are nanoseconds; the counters only grow for one process.
pub mod Sustained
use efe_process_monitor.Common.{
  ℕ, ◌+◌, ◌-◌, Bool, true, false, not, ◌&&◌, ◌||◌, Option, none, some, [], list_eq, nat_eq, ltb,
  leb, max, if◌then◌else◌,
}
use efe_process_monitor.Common.Maps.{Map, lookup, insert, keep}
use efe_process_monitor.Common.Texts.{Text}
use efe_process_monitor.Monitor.Beacon.{Reals, number, zero_f}

-- 256 KiB per second
abbrev pub high_egress_bytes_per_sec : ℕ
high_egress_bytes_per_sec = 262144

abbrev pub egress_hot_samples : ℕ
egress_hot_samples = 2

abbrev pub cpu_hot_percent : ℕ
cpu_hot_percent = 80

abbrev pub cpu_hot_samples : ℕ
cpu_hot_samples = 5

-- Ten minutes
abbrev pub io_sample_ttl : ℕ
io_sample_ttl = 600000000000

module _ (r : Reals) where
  pub record IoRate : Type 0 where
    pub rate_in : r.F
    pub rate_out : r.F
    pub high_egress : Bool
    pub cpu : r.F
    pub high_cpu : Bool
    pub rss : ℕ
    pub threads : ℕ
    pub user : Text
    pub res_ok : Bool

  abbrev pub no_rate : IoRate
  no_rate = record {
    rate_in = zero_f r;
    rate_out = zero_f r;
    high_egress = false;
    cpu = zero_f r;
    high_cpu = false;
    rss = 0;
    threads = 0;
    user = [];
    res_ok = false;
  }

  pub record IoSample : Type 0 where
    pub at : ℕ
    pub bytes_in : ℕ
    pub bytes_out : ℕ
    pub cpu_secs : r.F
    pub rate : IoRate
    pub hot : ℕ
    pub cpu_hot : ℕ
    pub last_seen : ℕ
    pub have_first : Bool
    pub user_done : Bool

  -- The deferred assignments.
  unfoldable pub stamp : ℕ → ℕ → ℕ → r.F → IoSample → IoSample
  stamp now bytes_in bytes_out cpu s = record s {
    at = now;
    bytes_in = bytes_in;
    bytes_out = bytes_out;
    cpu_secs = cpu;
    have_first = true;
    last_seen = now;
  }

  abbrev pub count_hot : Bool → ℕ → ℕ
  count_hot over n = if over then n + 1 else 0

  -- No process uses more than every core.
  unfoldable pub cpu_percent : ℕ → r.F → r.F → r.F → r.F
  cpu_percent num_cpu secs old new =
      let percent = r.mul (r.div (r.sub new old) secs) (number r 100) in
      let limit = r.mul (number r 100) (number r (max num_cpu 1)) in
      if r.lt limit percent then limit else percent

  -- The rates of an interval, for counters that did not fall.
  unfoldable pub measure : ℕ → ℕ → ℕ → ℕ → r.F → IoSample → IoSample
  measure num_cpu now bytes_in bytes_out cpu s =
      let secs = r.of_ratio (now - s.at) 1000000000 in
      let rate_out = r.div (number r (bytes_out - s.bytes_out)) secs in
      let percent = cpu_percent num_cpu secs s.cpu_secs cpu in
      let hot = count_hot (not (r.lt rate_out (number r high_egress_bytes_per_sec))) s.hot in
      let cpu_hot = count_hot (not (r.lt percent (number r cpu_hot_percent))) s.cpu_hot in
      record s {
        rate = record (s.rate) {
          rate_in = r.div (number r (bytes_in - s.bytes_in)) secs;
          rate_out = rate_out;
          high_egress = leb egress_hot_samples hot;
          cpu = percent;
          high_cpu = leb cpu_hot_samples cpu_hot;
        };
        hot = hot;
        cpu_hot = cpu_hot;
      }

  -- The process id belongs to another process now.
  abbrev pub is_reused : ℕ → ℕ → r.F → IoSample → Bool
  is_reused bytes_in bytes_out cpu s =
      ltb bytes_in s.bytes_in || ltb bytes_out s.bytes_out || r.lt cpu s.cpu_secs

  unfoldable pub advance : ℕ → ℕ → ℕ → ℕ → r.F → IoSample → IoSample
  advance num_cpu now bytes_in bytes_out cpu s =
      if not s.have_first
      then stamp now bytes_in bytes_out cpu s
      else if leb now s.at
      then stamp now bytes_in bytes_out cpu s
      else if is_reused bytes_in bytes_out cpu s
      then stamp now bytes_in bytes_out cpu
          (record s { rate = no_rate; hot = 0; cpu_hot = 0; user_done = false })
      else stamp now bytes_in bytes_out cpu (measure num_cpu now bytes_in bytes_out cpu s)

  -- What is read of a process: the counters, the processor time, the memory and the account.
  pub record Reading : Type 0 where
    pub bytes_in : ℕ
    pub bytes_out : ℕ
    pub cpu : r.F
    pub rss : ℕ
    pub threads : ℕ
    pub res_ok : Bool
    pub user : Text

  abbrev pub no_sample : IoSample
  no_sample = record {
    at = 0;
    bytes_in = 0;
    bytes_out = 0;
    cpu_secs = zero_f r;
    rate = no_rate;
    hot = 0;
    cpu_hot = 0;
    last_seen = 0;
    have_first = false;
    user_done = false;
  }

  abbrev pub or_new : Option IoSample → IoSample
  or_new none = no_sample
  or_new (some s) = s

  -- The second critical section for one process; the account is set where it was asked for and the
  -- sample has not been reset.
  pub update_sample : ℕ → ℕ → Reading → IoSample → IoSample
  update_sample num_cpu now d s =
      let need_user = d.res_ok && not s.user_done in
      let s1 = advance num_cpu now d.bytes_in d.bytes_out d.cpu s in
      let rate = record (s1.rate) { rss = d.rss; threads = d.threads; res_ok = d.res_ok } in
      if need_user && not s1.user_done
      then record s1 { rate = record rate { user = d.user }; user_done = true }
      else record s1 { rate = rate }

  pub sample_process : ℕ → ℕ → ℕ → Reading → Map ℕ IoSample → Map ℕ IoSample
  sample_process num_cpu now pid d samples =
      insert pid (update_sample num_cpu now d (or_new (lookup pid samples))) samples

  -- The sweep at the end of sampleProcessIO.
  pub expire_samples : ℕ → Map ℕ IoSample → Map ℕ IoSample
  expire_samples now samples = keep (λ pid s. not (ltb (s.last_seen + io_sample_ttl) now)) samples

  pub rate_for : ℕ → Map ℕ IoSample → IoRate
  rate_for pid samples = (or_new (lookup pid samples)).rate
