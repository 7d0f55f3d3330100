-- ===== src/Vt/Analyze/Verdicts.antt =====
-- analyzeExe reads what resolveHash has saved.
use efe_process_monitor.Common.{
  ℕ, ◌≡◌, ◌≢◌, refl, true, false, Option, some, [], ◌∷◌, ◌++◌, All, list_eq, nat_eq, ◌=?◌,
  list_beq_iff, arith,
}
use efe_process_monitor.Common.Texts.{Text, codes}
use efe_process_monitor.Common.Ints.{itoa, itoa-digits, is_digit}
use efe_process_monitor.Score.Reasons.Splits.{Lacks, cut-append}
use efe_process_monitor.Ports.{path_known}
use efe_process_monitor.Vt.Verdict.{verdict, resolve_hash}
use efe_process_monitor.Vt.Analyze.{analyze_exe}

Lacks-digits : (s : Text) → All (λ c. is_digit c ≡ true) s → Lacks b'/' s
Lacks-digits [] h = tt
Lacks-digits (c ∷ s) h = (λ e. ground arith, Lacks-digits s h.1)

-- A text that starts with digits, or with a slash, is not the mark of an unknown file.
not_unknown :
    (s t : Text) → All (λ c. is_digit c ≡ true) s → ((s ++ (b'/' ∷ t)) =? codes "NOT_IN_VT") ≡ false
not_unknown [] t h = refl
not_unknown (c ∷ s) t h = ground arith

-- A file whose verdict has been saved is shown with the two numbers of the verdict, and is not queued
-- again. `cached` is the database after resolveHash has saved the answer for the file's hash.
analyze_exe-verdict :
    (file_hash : Text → Text) (cached : Text → Option Text) (vt_key exe : Text)
    (malicious undetected : ℕ)
    → path_known exe ≡ true
    → file_hash exe ≢ []
    → vt_key ≢ []
    → cached (file_hash exe) ≡ resolve_hash vt_key (verdict malicious undetected)
    → analyze_exe file_hash cached vt_key exe ≡ record {
      is_cached = true;
      result = itoa malicious;
      undetected = itoa undetected;
      is_queued = false;
    }
unfolding analyze_exe resolve_hash
analyze_exe-verdict file_hash cached vt_key exe m u p h k e =
    let digits = itoa-digits m in
    let n = not_unknown (itoa m) (itoa u) digits in
    let c = cut-append b'/' (itoa m) (itoa u) (Lacks-digits (itoa m) digits) in
    let s : cached (file_hash exe) ≡ some (itoa m ++ (b'/' ∷ itoa u)) =
      ground (arith, list_beq_iff vt_key []) in
    let f : (file_hash exe =? []) ≡ false = ground (arith, list_beq_iff (file_hash exe) []) in
    rw (p) rw (f) rw (s) rw (n) rw (c) refl
