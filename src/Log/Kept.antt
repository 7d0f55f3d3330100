-- ===== src/Log/Kept.antt =====
-- What a write keeps of the log.
pub mod Bounded
use efe_process_monitor.Common.{
  ℕ, ◌+◌, ◌≤◌, ◌≡◌, ◌≢◌, refl, ap, sym, ◌∙◌, subst, Bool, true, false, none, [], ◌++◌, nat_eq, ◌=?◌,
  length, length-append, append_assoc, ltb, if◌then◌else◌, arith, Bool-cases, Option-cases, inl,
  inr, ltb_false→le,
}
use efe_process_monitor.Common.Texts.{Text}
use efe_process_monitor.Common.Maps.{lookup, delete, lookup-insert, lookup-delete}
use efe_process_monitor.Log.{
  Files, RotatingWriter, log_max_bytes, content, rename, open_log, shift, rotate, append, write,
}

-- A file is moved to a free place.
lookup-rename :
    (k i j : ℕ) (fs : Files)
    → lookup j fs ≡ none
    → i ≢ j
    → lookup k (rename i j fs)
      ≡ (if j =? k then lookup i fs else if i =? k then none else lookup k fs)
unfolding rename
lookup-rename k i j fs h n = elim (Option-cases (lookup i fs)) [
  | inl e ↦ ground (arith, ap (λ (m : ℕ). lookup m fs) {x = i} {y = k})
  | inr (t, e) ↦ ground (
    arith,
    lookup-insert k j t (delete i fs),
    lookup-delete k i fs,
    ap (λ (m : ℕ). lookup m fs) {x = i} {y = k},
  )
]

-- The files after the renaming: each holds what the one before it held.
abbrev moved : Files → Files
moved fs = rename 0 1 (rename 1 2 (rename 2 3 (delete 3 fs)))

moved-lookup :
    (fs : Files)
    → (lookup 0 (moved fs) ≡ none)
      × (lookup 1 (moved fs) ≡ lookup 0 fs)
      × (lookup 2 (moved fs) ≡ lookup 1 fs)
      × (lookup 3 (moved fs) ≡ lookup 2 fs)
moved-lookup fs =
    let a = delete 3 fs in
    let b = rename 2 3 a in
    let c = rename 1 2 b in
    let free3 = lookup-delete 3 3 fs in
    let at = λ (k : ℕ). lookup-rename k 2 3 a free3 (omega arith) in
    let free2 = at 2 in
    let at2 = λ (k : ℕ). lookup-rename k 1 2 b free2 (omega arith) in
    let free1 = at2 1 in
    let at1 = λ (k : ℕ). lookup-rename k 0 1 c free1 (omega arith) in
    (
      at1 0,
      at1 1 ∙ at2 0 ∙ at 0 ∙ lookup-delete 0 3 fs,
      at1 2 ∙ at2 2 ∙ at 1 ∙ lookup-delete 1 3 fs,
      at1 3 ∙ at2 3 ∙ at 3 ∙ lookup-delete 2 3 fs,
    )

abbrev pub held : ℕ → RotatingWriter → Text
held k w = content (lookup k w.files)

-- All that is left of the log, the oldest bytes first.
abbrev pub archive : RotatingWriter → Text
archive w = held 3 w ++ (held 2 w ++ (held 1 w ++ held 0 w))

pub rotate-held :
    (w : RotatingWriter)
    → (held 0 (rotate true w) ≡ [])
      × (held 1 (rotate true w) ≡ held 0 w)
      × (held 2 (rotate true w) ≡ held 1 w)
      × (held 3 (rotate true w) ≡ held 2 w)
      × ((rotate true w).is_open ≡ true)
      × ((rotate true w).size ≡ 0)
unfolding rotate open_log shift
rotate-held w =
    let (a, b, c, d) = moved-lookup w.files in
    let none0 = ap content a in
    let at = λ (k : ℕ). lookup-insert k 0 (content (lookup 0 (moved w.files))) (moved w.files) in
    (
      ap content (at 0) ∙ none0,
      ap content (at 1 ∙ b),
      ap content (at 2 ∙ c),
      ap content (at 3 ∙ d),
      refl,
      ap length none0,
    )

pub append-held :
    (p : Text) (w : RotatingWriter)
    → w.is_open ≡ true
    → (held 0 (append p w) ≡ held 0 w ++ p)
      × (held 1 (append p w) ≡ held 1 w)
      × (held 2 (append p w) ≡ held 2 w)
      × (held 3 (append p w) ≡ held 3 w)
      × ((append p w).is_open ≡ true)
      × ((append p w).size ≡ w.size + length p)
append-held p w o =
    let t = content (lookup 0 w.files) ++ p in
    let at = λ (k : ℕ). lookup-insert k 0 t w.files in
    rw o (ap content (at 0), ap content (at 1), ap content (at 2), ap content (at 3), refl, refl)

-- The line stands at the end of what the files hold, after all that they held before but `lost`,
-- and at the end of `before` in the current file.
abbrev pub Keeps : (lost before p : Text) → RotatingWriter → RotatingWriter → Type 0
Keeps lost before p w w' = (archive w ++ p ≡ lost ++ archive w') × (held 0 w' ≡ before ++ p)

-- The write rotates: the line would take the current file over five megabytes.
abbrev pub is_full : Text → RotatingWriter → Bool
is_full p w = ltb log_max_bytes (w.size + length p)

join4 : (p d c b a : Text) → (d ++ (c ++ (b ++ a))) ++ p ≡ d ++ (c ++ (b ++ (a ++ p)))
join4 p d c b a = simp append_assoc refl

append-Keeps :
    (p : Text) (w : RotatingWriter) → w.is_open ≡ true → Keeps [] (held 0 w) p w (append p w)
append-Keeps p w o =
    let (a, b, c, d, e, f) = append-held p w o in
    (
      join4 p (held 3 w) (held 2 w) (held 1 w) (held 0 w) ∙ sym (λ i. d i ++ (c i ++ (b i ++ a i))),
      a,
    )

rotate-Keeps : (p : Text) (w : RotatingWriter) → Keeps (held 3 w) [] p w (append p (rotate true w))
rotate-Keeps p w =
    let (a0, a1, a2, a3, o, z) = rotate-held w in
    let (b0, b1, b2, b3, o', z') = append-held p (rotate true w) o in
    let new = b0 ∙ ap (λ t. t ++ p) a0 in
    (
      join4 p (held 3 w) (held 2 w) (held 1 w) (held 0 w)
          ∙ ap (λ t. held 3 w ++ t)
              (sym (λ i. (b3 ∙ a3) i ++ ((b2 ∙ a2) i ++ ((b1 ∙ a1) i ++ new i)))),
      new,
    )

pub write_rotates :
    (p : Text) (w : RotatingWriter)
    → w.is_open ≡ true
    → ltb log_max_bytes (w.size + length p) ≡ true
    → write true p w ≡ append p (rotate true w)
unfolding write
write_rotates p w o e =
    let at = λ (b : Bool). append p (if b then rotate true w else w) in
    (λ i. if o i then at (ltb log_max_bytes (w.size + length p)) else w) ∙ ap at e

pub write_appends :
    (p : Text) (w : RotatingWriter)
    → w.is_open ≡ true
    → ltb log_max_bytes (w.size + length p) ≡ false
    → write true p w ≡ append p w
unfolding write
write_appends p w o e =
    let at = λ (b : Bool). append p (if b then rotate true w else w) in
    (λ i. if o i then at (ltb log_max_bytes (w.size + length p)) else w) ∙ ap at e

-- While the log can be opened, a write adds its line to the end of the current file, and of what the
-- four files hold together, oldest first. Nothing is lost from these, but where the line would take the
-- current file over five megabytes: there exactly the oldest file is lost, and the line is alone in a
-- new file.
pub write-Keeps :
    (p : Text) (w : RotatingWriter)
    → w.is_open ≡ true
    → Keeps
        (if is_full p w then held 3 w else [])
        (if is_full p w then [] else held 0 w)
        p
        w
        (write true p w)
write-Keeps p w o = elim (Bool-cases (is_full p w)) [
  | inl e ↦ rw e (subst (Keeps (held 3 w) [] p w) (sym (write_rotates p w o e)) (rotate-Keeps p w))
  | inr e ↦
      rw e (subst (Keeps [] (held 0 w) p w) (sym (write_appends p w o e)) (append-Keeps p w o))
]
