-- ===== src/Context/Masked.antt =====
-- The credentials of an address do not reach the page.
use efe_process_monitor.Common.{
  ℕ, ◌≡◌, refl, ap, sym, ◌∙◌, true, false, none, some, [], ◌∷◌, ◌++◌, All, append_assoc, arith,
}
use efe_process_monitor.Common.Texts.{Text, codes}
use efe_process_monitor.Common.Cuts.{find_text, cut_last}
use efe_process_monitor.Score.Reasons.Splits.{Lacks}
use efe_process_monitor.Context.{
  ends_authority, break_at, scheme_end, mask_creds, mask_authority, mask_found, mask_url_creds,
}

find_text-scheme :
    (s r : Text)
    → Lacks b':' s
    → find_text (s ++ (scheme_end ++ r)) scheme_end ≡ some (s, scheme_end ++ r)
unfolding find_text
find_text-scheme [] r h = refl
find_text-scheme (c ∷ s) r h = ground (arith, find_text-scheme s r h.1)

cut_last-Lacks : (b : ℕ) (h : Text) → Lacks b h → cut_last b h ≡ none
unfolding cut_last
cut_last-Lacks b [] h = refl
cut_last-Lacks b (c ∷ s) h = ground (arith, cut_last-Lacks b s h.1)

cut_last-append : (b : ℕ) (u h : Text) → Lacks b h → cut_last b (u ++ (b ∷ h)) ≡ some (u, h)
unfolding cut_last
cut_last-append b [] h l = ground (arith, cut_last-Lacks b h l)
cut_last-append b (c ∷ u) h l = ground (arith, cut_last-append b u h l)

abbrev pub IsInside : Text → Type 0
IsInside s = All (λ c. ends_authority c ≡ false) s

-- Nothing, or text that ends an authority.
abbrev pub Follows : Text → Type 0
Follows [] = Unit
Follows (c ∷ s) = ends_authority c ≡ true

break_at-append : (s t : Text) → IsInside s → Follows t → break_at ends_authority (s ++ t) ≡ (s, t)
unfolding break_at
break_at-append [] [] h f = refl
break_at-append [] (c ∷ t) h f = rw f refl
break_at-append (c ∷ s) t h f = rw (h.0, break_at-append s t h.1 f) refl

IsInside-append : (s t : Text) → IsInside s → IsInside t → IsInside (s ++ t)
IsInside-append [] t h g = g
IsInside-append (c ∷ s) t h g = (h.0, IsInside-append s t h.1 g)

-- Of an address with a scheme, credentials and a host, whatever follows, the text that is shown has
-- three stars in place of the credentials and does not depend on them. The scheme holds no colon, the
-- credentials and the host hold none of / ? #, and the host no @.
pub mask_url_creds-hides :
    (scheme creds host tail : Text)
    → Lacks b':' scheme
    → IsInside creds
    → IsInside host
    → Lacks b'@' host
    → Follows tail
    → mask_url_creds (scheme ++ (scheme_end ++ (creds ++ (b'@' ∷ (host ++ tail)))))
      ≡ scheme ++ (scheme_end ++ (codes "***@" ++ (host ++ tail)))
unfolding mask_url_creds
mask_url_creds-hides scheme creds host tail a b c d e =
    let v = scheme ++ (scheme_end ++ (creds ++ (b'@' ∷ (host ++ tail)))) in
    let f = find_text-scheme scheme (creds ++ (b'@' ∷ (host ++ tail))) a in
    let inside = IsInside-append creds (b'@' ∷ host) b (refl, c) in
    let whole = ap (break_at ends_authority) (append_assoc creds (b'@' ∷ host) tail) in
    let g = break_at-append (creds ++ (b'@' ∷ host)) tail inside e in
    ap (mask_found v) f
    ∙ ap (mask_authority v scheme) (sym whole ∙ g)
    ∙ ap (mask_creds v scheme tail) (cut_last-append b'@' creds host d)
