-- ===== src/Intel/Feeds/Quiet.antt =====
-- How often the feeds are downloaded, and what a download may do to them.
use efe_process_monitor.Common.{
  ℕ, ◌+◌, ◌≤◌, ◌<◌, ◌≡◌, ◌≢◌, ◌⊎◌, inl, inr, refl, Bool, true, false, Option, none, some, [], ◌∷◌,
  List, list_eq, nat_eq, if◌then◌else◌, All, if-elim, ap, suc, length, arith, Bool-cases,
  Option-cases,
}
use efe_process_monitor.Common.Texts.{Text}
use efe_process_monitor.Common.Cuts.{lines}
use efe_process_monitor.Intel.Feeds.{
  Feed, feed_fail_ttl, is_some, is_nil, is_due, at_least_empty, take_reply, refresh, set_of_lines,
  get,
}

-- One call: the clock before and after, and what a download would return.
abbrev pub Call : Type 0
Call = ℕ × ℕ × Option Text

abbrev pub empty_feed : {A : Type 0} → Feed A
empty_feed = record { at = none; tried_at = none; entries = none }

module _ {A : Type 0} (parse : Text → List A) where
  -- The downloads that a sequence of unforced calls makes.
  unfoldable pub downloads : List Call → Feed A → ℕ
  downloads [] f = 0
  downloads ((now, later, reply) ∷ calls) f =
      let rest = downloads calls (refresh parse false now later reply f) in
      if is_due false now f then suc rest else rest

  -- The feed was tried at a time from `from` on, and holds something.
  abbrev Tried : ℕ → Feed A → Type 0
  Tried from f = (is_some f.entries ≡ true) × ((t : ℕ) × (f.tried_at ≡ some t) × (from ≤ t))

  take_reply-Tried :
      (from now later : ℕ) (reply : Option Text) (f : Feed A)
      → from ≤ now
      → f.tried_at ≡ some now
      → Tried from (take_reply parse later reply f)
  take_reply-Tried from now later none f h e = elim (Option-cases f.entries) [
    | inl n ↦ (rw n refl, (now, e, h))
    | inr (es, n) ↦ (rw n refl, (now, e, h))
  ]
  take_reply-Tried from now later (some body) f h e =
      if-elim (Tried from) (is_nil (parse body))
        (λ b. elim (Option-cases f.entries) [
          | inl n ↦ (rw n refl, (now, e, h))
          | inr (es, n) ↦ (rw n refl, (now, e, h))
        ])
        (λ b. (refl, (now, e, h)))

  refresh-Tried :
      (from now later : ℕ) (reply : Option Text) (f : Feed A)
      → from ≤ now
      → is_due false now f ≡ true
      → Tried from (refresh parse false now later reply f)
  unfolding refresh
  refresh-Tried from now later reply f h d =
      rw d (take_reply-Tried from now later reply (record f { tried_at = some now }) h refl)

  Tried-is_due :
      (from now : ℕ) (f : Feed A)
      → Tried from f
      → now < from + feed_fail_ttl
      → is_due false now f ≡ false
  unfolding is_due
  Tried-is_due from now f (e, (t, g, h)) k = rw (e, g) (ground arith)

  downloads-Tried :
      (from : ℕ) (calls : List Call) (f : Feed A)
      → All (λ c. (from ≤ c.0) × (c.0 < from + feed_fail_ttl)) calls
      → Tried from f
      → downloads calls f ≡ 0
  unfolding downloads refresh
  downloads-Tried from [] f h t = refl
  downloads-Tried from ((now, later, reply) ∷ calls) f h t =
      let d = Tried-is_due from now f t h.0.1 in rw d (downloads-Tried from calls f h.1 t)

  -- However the downloads end, unforced calls within ten minutes make one download at most.
  pub downloads_bound :
      (from : ℕ) (calls : List Call) (f : Feed A)
      → All (λ c. (from ≤ c.0) × (c.0 < from + feed_fail_ttl)) calls
      → downloads calls f ≤ 1
  unfolding downloads
  downloads_bound from [] f h = omega arith
  downloads_bound from ((now, later, reply) ∷ calls) f h = elim (Bool-cases (is_due false now f)) [
    | inl d ↦
        let z =
          downloads-Tried from calls (refresh parse false now later reply f) h.1
            (refresh-Tried from now later reply f h.0.0 d) in
        rw d (omega (arith, z))
    | inr d ↦ rw d (downloads_bound from calls (refresh parse false now later reply f) h.1)
  ]

  -- A download leaves what the feed held, or puts in its place what it brought, which is never empty.
  abbrev pub Replaced : Option Text → Option (List A) → Option (List A) → Type 0
  Replaced reply old new =
      (new ≡ old)
      ⊎ (((old ≡ none) × (new ≡ some []))
          ⊎ ((body : Text) × (reply ≡ some body) × (new ≡ some (parse body)) × (parse body ≢ [])))

  take_reply-Replaced :
      (later : ℕ) (reply : Option Text) (f : Feed A)
      → Replaced reply f.entries (take_reply parse later reply f).entries
  take_reply-Replaced later none f = elim (Option-cases f.entries) [
    | inl n ↦ inr (inl (n, ap at_least_empty n))
    | inr (es, n) ↦ inl (rw n refl)
  ]
  take_reply-Replaced later (some body) f =
      if-elim (λ (g : Feed A). Replaced (some body) f.entries g.entries) (is_nil (parse body))
        (λ b. elim (Option-cases f.entries) [
          | inl n ↦ inr (inl (n, ap at_least_empty n))
          | inr (es, n) ↦ inl (rw n refl)
        ])
        (λ b. inr (inr (body, refl, refl, λ e. absurd (ground arith))))

  -- A call leaves the entries as they are, makes an empty list of a feed that has had none, or puts
  -- what the download brought in their place, which is then not empty: entries are never lost to a
  -- download that fails or that brings nothing.
  pub refresh-Replaced :
      (force : Bool) (now later : ℕ) (reply : Option Text) (f : Feed A)
      → Replaced reply f.entries (refresh parse force now later reply f).entries
  unfolding refresh
  refresh-Replaced force now later reply f =
      if-elim (λ (g : Feed A). Replaced reply f.entries g.entries) (is_due force now f)
        (λ d. take_reply-Replaced later reply (record f { tried_at = some now })) (λ d. inl refl)

-- The downloads of ipSet.get.
unfoldable pub set_downloads : Bool → List Call → Feed (Text × Bool) → ℕ
set_downloads skip [] s = 0
set_downloads skip ((now, later, reply) ∷ calls) s =
    let rest = set_downloads skip calls (get skip now later reply s) in
    if is_due false now s then suc rest else rest

-- The download brings text without a line that counts.
abbrev pub Blank : Bool → Call → Type 0
Blank skip (now, later, none) = ⊥
Blank skip (now, later, some body) = set_of_lines skip (lines body) [] ≡ []

-- ipSet.get has no such bound: while every download succeeds and brings no entry, a set that has never
-- been filled is downloaded at every call.
pub set_downloads-Blank :
    (skip : Bool) (calls : List Call) (at tried_at : Option ℕ)
    → All (Blank skip) calls
    → set_downloads skip calls (record { at = at; tried_at = tried_at; entries = none })
      ≡ length calls
unfolding set_downloads get is_due
set_downloads-Blank skip [] at t h = refl
set_downloads-Blank skip ((now, later, none) ∷ calls) at t h = absurd h.0
set_downloads-Blank skip ((now, later, some body) ∷ calls) at t h =
    rw h.0 (ap suc (set_downloads-Blank skip calls at (some now) h.1))
