-- ===== src/Notify.antt =====
-- notify.go: which notifications are shown. `now` is the clock of the call in nanoseconds; how one is
-- shown is the desktop's.
pub mod Throttle
use efe_process_monitor.Common.{
  ℕ, ◌-◌, ◌*◌, Bool, true, false, not, Option, none, some, [], ◌∷◌, list_eq, nat_eq, ltb, ◌=?◌,
  if◌then◌else◌,
}
use efe_process_monitor.Common.Texts.{Text}
use efe_process_monitor.Common.Maps.{Map, lookup, insert, keep}
use efe_process_monitor.Intel.Feeds.{second, within}

abbrev pub notify_throttle : ℕ
notify_throttle = 60 * second

-- The time of the last notification by its key.
abbrev pub LastNotify : Type 0
LastNotify = Map Text ℕ

abbrev pub key_for : Text → Text → Text
key_for message key = if key =? [] then message else key

-- Only keys whose window has not passed are kept.
abbrev pub sweep : ℕ → LastNotify → LastNotify
sweep now last = keep (λ k at. within notify_throttle now (some at)) last

-- Whether the notification is sent, and the map after it.
unfoldable pub notify : Bool → ℕ → Text → Text → LastNotify → Bool × LastNotify
notify notify_desktop now message key last =
    let k = key_for message key in
    if not notify_desktop
    then (false, last)
    else if within notify_throttle now (lookup k last)
    then (false, last)
    else (true, insert k now (sweep now last))
