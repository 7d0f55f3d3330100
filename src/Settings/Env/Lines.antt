-- ===== src/Settings/Env/Lines.antt =====
-- Lines are read back as they are written.
use efe_process_monitor.Common.{
  ℕ, ◌≡◌, refl, Bool, true, not, ◌&&◌, [], ◌∷◌, ◌++◌, List, list_eq, nat_eq, ◌==◌, map, arith, All,
  all, if-elim, append_assoc,
}
use efe_process_monitor.Common.Texts.{Text, join}
use efe_process_monitor.Settings.Env.{drop_cr, onto_line, raw_lines, scan_lines}

abbrev pub is_plain : ℕ → Bool
is_plain c = not (c == 10) && not (c == 13)

-- No line end and no carriage return.
abbrev pub IsPlain : Text → Type 0
IsPlain s = all is_plain s ≡ true

abbrev pub no_return : Text → Bool
no_return = all (λ c. not (c == 13))

drop_cr-IsPlain : (l : Text) → IsPlain l → drop_cr l ≡ l
drop_cr-IsPlain [] h = refl
drop_cr-IsPlain (c ∷ []) h = ground arith
drop_cr-IsPlain (c ∷ (d ∷ s)) h = ground (arith, drop_cr-IsPlain (d ∷ s))

raw_lines-line : (l : Text) (s : Text) → IsPlain l → raw_lines (l ++ (10 ∷ s)) ≡ l ∷ raw_lines s
unfolding raw_lines
raw_lines-line [] s h = refl
raw_lines-line (c ∷ l) s h = ground (arith, raw_lines-line l s)

onto_line-IsPlain :
    (c : ℕ) (ls : List Text) → is_plain c ≡ true → All IsPlain ls → All IsPlain (onto_line c ls)
onto_line-IsPlain c [] h k = (ground arith, tt)
onto_line-IsPlain c (l ∷ ls) h (k, ks) = (ground arith, ks)

raw_lines-IsPlain : (s : Text) → no_return s ≡ true → All IsPlain (raw_lines s)
unfolding raw_lines
raw_lines-IsPlain [] h = tt
raw_lines-IsPlain (c ∷ s) h =
    if-elim (All IsPlain) (c == 10) (λ _. (refl, raw_lines-IsPlain s (ground arith)))
      (λ k. onto_line-IsPlain c (raw_lines s) (ground arith) (raw_lines-IsPlain s (ground arith)))

map-drop_cr : (ls : List Text) → All IsPlain ls → map drop_cr ls ≡ ls
map-drop_cr [] h = refl
map-drop_cr (l ∷ ls) (h, hs) = simp (drop_cr-IsPlain l h, map-drop_cr ls hs)

pub scan_lines-IsPlain : (s : Text) → no_return s ≡ true → All IsPlain (scan_lines s)
unfolding scan_lines
scan_lines-IsPlain s h =
    simp (map-drop_cr (raw_lines s) (raw_lines-IsPlain s h)) (raw_lines-IsPlain s h)

raw_lines-join :
    (l : Text) (ls : List Text)
    → IsPlain l
    → All IsPlain ls
    → raw_lines (join (10 ∷ []) (l ∷ ls) ++ 10 ∷ []) ≡ l ∷ ls
unfolding raw_lines
raw_lines-join l [] h hs = raw_lines-line l [] h
raw_lines-join l (m ∷ ls) h (k, hs) =
    let rest = join (10 ∷ []) (m ∷ ls) in
    simp (
      append_assoc l (10 ∷ rest) (10 ∷ []),
      raw_lines-line l (rest ++ 10 ∷ []) h,
      raw_lines-join m ls k hs,
    )

-- Plain lines that are written to a file are read back as they were.
pub scan_lines-join :
    (l : Text) (ls : List Text)
    → IsPlain l
    → All IsPlain ls
    → scan_lines (join (10 ∷ []) (l ∷ ls) ++ 10 ∷ []) ≡ l ∷ ls
unfolding scan_lines
scan_lines-join l ls h hs = simp (raw_lines-join l ls h hs, map-drop_cr (l ∷ ls) (h, hs))
