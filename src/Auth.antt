-- ===== src/Auth.antt =====
-- auth.go: the password, the sessions, the login backoff and the middleware. This file has the
-- package's variables; times and durations are numbers of nanoseconds.
pub mod Backoff
pub mod Sessions
pub mod Hosts
pub mod Listen
pub mod Gate
pub mod Login
use efe_process_monitor.Common.{ℕ, ◌*◌, Bool}
use efe_process_monitor.Common.Maps.{Map}
use efe_process_monitor.Common.Texts.{Text}

pub record AuthState : Type 0 where
  pub auth_hash : Text  -- empty: the login is off
  pub sessions : Map Text ℕ  -- token to expiry
  pub login_fails : Map Text ℕ
  pub lock_until : Map Text ℕ
  pub local_token : Text
  pub env_hash : Text  -- AUTH_HASH in .env

abbrev pub second : ℕ
second = 1000000000

abbrev pub minute : ℕ
minute = 60 * second

abbrev pub hour : ℕ
hour = 60 * minute

abbrev pub day : ℕ
day = 24 * hour
