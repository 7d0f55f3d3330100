-- ===== src/Log/Kept/Bounded.antt =====
-- How large the files of the log are.
use efe_process_monitor.Common.{
  ℕ, ◌+◌, ◌≤◌, ◌≡◌, ap, sym, ◌∙◌, subst, true, ◌++◌, nat_eq, length, length-append, ltb, arith,
  Bool-cases, inl, inr, ltb_false→le,
}
use efe_process_monitor.Common.Texts.{Text}
use efe_process_monitor.Log.{RotatingWriter, log_max_bytes, rotate, append, write}
use efe_process_monitor.Log.Kept.{held, rotate-held, append-held, write_rotates, write_appends}

-- The files are within the limit, and the size is the current file's.
pub record IsBounded (limit : ℕ) (w : RotatingWriter) : Type 0 where
  pub opened : w.is_open ≡ true
  pub its_size : w.size ≡ length (held 0 w)
  pub current : length (held 0 w) ≤ limit
  pub first : length (held 1 w) ≤ limit
  pub second : length (held 2 w) ≤ limit
  pub third : length (held 3 w) ≤ limit

rotate-IsBounded :
    (limit : ℕ) (p : Text) (w : RotatingWriter)
    → length p ≤ limit
    → IsBounded limit w
    → IsBounded limit (append p (rotate true w))
rotate-IsBounded limit p w l h =
    let (a0, a1, a2, a3, o, z) = rotate-held w in
    let (b0, b1, b2, b3, o', z') = append-held p (rotate true w) o in
    record {
      opened = o';
      its_size = omega (arith, z, z', ap length (b0 ∙ ap (λ (t : Text). t ++ p) a0));
      current = rw (b0, a0) l;
      first = rw (b1, a1) h.current;
      second = rw (b2, a2) h.first;
      third = rw (b3, a3) h.second;
    }

append-IsBounded :
    (limit : ℕ) (p : Text) (w : RotatingWriter)
    → w.size + length p ≤ limit
    → IsBounded limit w
    → IsBounded limit (append p w)
append-IsBounded limit p w l h =
    let (b0, b1, b2, b3, o', z') = append-held p w h.opened in
    let e = length-append (held 0 w) p in
    record {
      opened = o';
      its_size = omega (arith, z', h.its_size, e, ap length b0);
      current = rw b0 (omega (arith, e, h.its_size));
      first = rw b1 h.first;
      second = rw b2 h.second;
      third = rw b3 h.third;
    }

-- While the log can be opened: where each of its files is within a limit of five megabytes or more, and
-- the line is within it too, the files are within it after the write, and the size that the writer
-- goes by is that of the current file.
pub write-IsBounded :
    (limit : ℕ) (p : Text) (w : RotatingWriter)
    → log_max_bytes ≤ limit
    → length p ≤ limit
    → IsBounded limit w
    → IsBounded limit (write true p w)
write-IsBounded limit p w m l h = elim (Bool-cases (ltb log_max_bytes (w.size + length p))) [
  | inl e ↦
      subst (IsBounded limit) (sym (write_rotates p w h.opened e)) (rotate-IsBounded limit p w l h)
  | inr e ↦
      let fits = ltb_false→le log_max_bytes (w.size + length p) e in
      subst (IsBounded limit) (sym (write_appends p w h.opened e))
        (append-IsBounded limit p w (omega (arith, fits)) h)
]
