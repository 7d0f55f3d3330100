-- ===== src/Vt/Bucket.antt =====
-- vt.go: tokenBucket. Times are nanoseconds, tokens are floats.
pub mod Rate
pub mod Wait
use efe_process_monitor.Common.{
  ℕ, ◌+◌, ◌-◌, ◌*◌, ◌/◌, ◌%◌, Bool, true, false, leb, min, if◌then◌else◌,
}
use efe_process_monitor.Common.Floats.{Float, one, of_nat, add, sub, mul, quot}
use efe_process_monitor.Intel.Feeds.{second}

-- Tokens, their maximum, and the tokens refilled in a second.
pub record TokenBucket : Type 0 where
  pub tokens : Float
  pub max : Float
  pub rate : Float
  pub last : ℕ

-- newBucket, for whole numbers
unfoldable pub new_bucket : ℕ → ℕ → ℕ → TokenBucket
new_bucket now max per_min = record {
  tokens = of_nat max;
  max = of_nat max;
  rate = quot (of_nat per_min) (of_nat 60);
  last = now;
}

-- Duration.Seconds
unfoldable pub seconds : ℕ → Float
seconds d = add (of_nat (d / second)) (quot (of_nat (d % second)) (of_nat second))

abbrev pub refilled : ℕ → TokenBucket → Float
refilled now b = min b.max (add b.tokens (mul (seconds (now - b.last)) b.rate))

unfoldable pub allow : ℕ → TokenBucket → Bool × TokenBucket
allow now b =
    let t = refilled now b in
    if leb one t
    then (true, record b { tokens = sub t one; last = now })
    else (false, record b { tokens = t; last = now })
