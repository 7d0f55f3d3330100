-- ===== src/Vt/Analyze.antt =====
-- connections.go: analyzeExe. `file_hash` is what fileHash makes of the file, `cached` is the answer of
-- the database for a hash, and the last part of the result says whether the hash is queued.
pub mod Verdicts
use efe_process_monitor.Common.{
  ℕ, Bool, true, false, not, ◌||◌, Option, none, some, [], ◌∷◌, list_eq, nat_eq, ◌=?◌,
  if◌then◌else◌,
}
use efe_process_monitor.Common.Texts.{Text, codes}
use efe_process_monitor.Common.Cuts.{cut}
use efe_process_monitor.Ports.{path_known}

pub record Analysis : Type 0 where
  pub is_cached : Bool
  pub result : Text
  pub undetected : Text
  pub is_queued : Bool

abbrev pub uncached : Text → Analysis
uncached result = record { is_cached = false; result = result; undetected = []; is_queued = false }

-- The part after the first slash, if there is one.
abbrev pub second_part : Option Text → Text
second_part none = []
second_part (some t) = t

abbrev pub of_score : Text → Analysis
of_score score =
    if score =? codes "NOT_IN_VT"
    then record { is_cached = true; result = codes "NOT_IN_VT"; undetected = []; is_queued = false }
    else (let parts = cut b'/' score in
        record {
          is_cached = true;
          result = parts.0;
          undetected = second_part parts.1;
          is_queued = false;
        })

abbrev pub of_cached : Text → Option Text → Analysis
of_cached vt_key (some score) = of_score score
of_cached vt_key none =
    if vt_key =? []
    then uncached (codes "N/A")
    else record (uncached (codes "PENDING")) { is_queued = true }

module _ (file_hash : Text → Text) (cached : Text → Option Text) where
  pub analyze_exe : Text → Text → Analysis
  analyze_exe vt_key exe =
      let h = file_hash exe in
      if not (path_known exe)
      then uncached (codes "N/A")
      else if h =? []
      then uncached (codes "no_hash")
      else of_cached vt_key (cached h)
