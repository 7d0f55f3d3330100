-- ===== src/Vt/Verdict/Misread.antt =====
-- Which answers are saved for good as "not known to VirusTotal".
use efe_process_monitor.Common.{
  ◌≡◌, ◌≢◌, refl, true, some, [], ◌∷◌, ◌++◌, list_eq, nat_eq, list_beq_iff, arith,
}
use efe_process_monitor.Common.Texts.{Text, codes, starts_with, contains}
use efe_process_monitor.Vt.Verdict.{failed, resolve_hash}

starts_with-longer : (s t p : Text) → starts_with s p ≡ true → starts_with (s ++ t) p ≡ true
starts_with-longer s t [] h = refl
starts_with-longer [] t (c ∷ p) h = absurd (ground arith)
starts_with-longer (d ∷ s) t (c ∷ p) h = ground (arith, starts_with-longer s t p)

contains-longer : (s t p : Text) → contains s p ≡ true → contains (s ++ t) p ≡ true
contains-longer [] [] p h = h
contains-longer [] (c ∷ t) p h = ground (arith, starts_with-longer [] (c ∷ t) p h)
contains-longer (c ∷ s) t p h =
    ground (arith, starts_with-longer (c ∷ s) t p, contains-longer s t p)

contains-prepend : (r s p : Text) → contains s p ≡ true → contains (r ++ s) p ≡ true
contains-prepend [] s p h = h
contains-prepend (c ∷ r) s p h = ground (arith, contains-prepend r s p h)

-- An error's text that quotes the request's address, as net/http's errors do, quotes the hash at its
-- end. Where the hash's digits hold 404, any such failure, a timeout for one, is saved as the answer
-- that VirusTotal does not know the file.
pub resolve_hash-failed :
    (vt_key hash before cause : Text)
    → vt_key ≢ []
    → contains hash (codes "404") ≡ true
    → resolve_hash vt_key (failed (before ++ (hash ++ cause))) ≡ some (codes "NOT_IN_VT")
unfolding resolve_hash
resolve_hash-failed vt_key hash before cause k h =
    let c =
      contains-prepend before (hash ++ cause) (codes "404")
        (contains-longer hash cause (codes "404") h) in
    ground (arith, c, list_beq_iff vt_key [])
