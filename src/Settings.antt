-- ===== src/Settings.antt =====
-- config.go: the settings and the file they are stored in.
pub mod Env
use efe_process_monitor.Common.{
  ℕ, ◌+◌, ◌-◌, Bool, true, false, not, ◌&&◌, ◌||◌, Option, none, some, [], ◌∷◌, ◌++◌, List, length,
  ltb, leb, drop, if◌then◌else◌,
}
use efe_process_monitor.Common.Ints.{ℤ, pos, negsuc}
use efe_process_monitor.Common.Texts.{Text, codes}

-- The UTF-8 bytes of the ellipsis, and the last four bytes of a key.
pub mask : Text → Text
mask k =
    if leb 4 (length k)
    then 226 ∷ 128 ∷ 166 ∷ drop (length k - 4) k
    else if ltb 0 (length k)
    then codes "****"
    else []

-- The interval that setRefreshSecs stores.
pub set_refresh_secs : ℤ → ℕ
set_refresh_secs (negsuc n) = 0
set_refresh_secs (pos n) = if ltb 3600 n then 3600 else n
