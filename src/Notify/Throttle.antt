-- ===== src/Notify/Throttle.antt =====
-- What the throttle lets through, with and without the sweep of old keys.
use efe_process_monitor.Common.{
  ℕ, ◌≤◌, ◌≡◌, refl, ap, Bool, true, false, not, Option, none, some, [], ◌∷◌, List, list_eq, nat_eq,
  arith, if◌then◌else◌, Bool-cases, inl, inr,
}
use efe_process_monitor.Common.Texts.{Text}
use efe_process_monitor.Common.Maps.{lookup, insert, kept, lookup-insert, lookup-keep}
use efe_process_monitor.Intel.Feeds.{within}
use efe_process_monitor.Notify.{notify_throttle, LastNotify, key_for, sweep, notify}

-- A call: the clock, the message and the key.
abbrev pub Call : Type 0
Call = ℕ × Text × Text

-- The calls that send, in their order, with notifications switched on.
pub sent : List Call → LastNotify → List Bool
sent [] last = []
sent ((now, message, key) ∷ calls) last =
    let r = notify true now message key last in r.0 ∷ sent calls r.1

-- The throttle as it is meant: each key has the time of its last notification, for ever.
pub remembered : List Call → LastNotify → List Bool
remembered [] last = []
remembered ((now, message, key) ∷ calls) last =
    let k = key_for message key in
    let quiet = within notify_throttle now (lookup k last) in
    not quiet ∷ remembered calls (if quiet then last else insert k now last)

-- Time does not run back.
abbrev pub Rises : ℕ → List Call → Type 0
Rises t [] = Unit
Rises t ((now, message, key) ∷ calls) = (t ≤ now) × Rises now calls

-- From time t on, the two maps suppress the same keys.
abbrev Alike : ℕ → LastNotify → LastNotify → Type 0
Alike t swept whole =
    (k : Text) (now : ℕ)
    → t ≤ now
    → within notify_throttle now (lookup k swept) ≡ within notify_throttle now (lookup k whole)

within-kept :
    (k : Text) (t now : ℕ) (o : Option ℕ)
    → t ≤ now
    → within notify_throttle now (kept (λ j at. within notify_throttle t (some at)) k o)
      ≡ within notify_throttle now o
within-kept k t now none h = refl
within-kept k t now (some at) h = ground arith

Alike-insert :
    (t : ℕ) (k : Text) (swept whole : LastNotify)
    → Alike t swept whole
    → Alike t (insert k t (sweep t swept)) (insert k t whole)
Alike-insert t k swept whole h j now l = ground (
  arith,
  lookup-insert j k t (sweep t swept),
  lookup-insert j k t whole,
  lookup-keep j (λ i at. within notify_throttle t (some at)) swept,
  within-kept j t now (lookup j swept) l,
  h j now l,
)

sent-Alike :
    (t : ℕ) (calls : List Call) (swept whole : LastNotify)
    → Rises t calls
    → Alike t swept whole
    → sent calls swept ≡ remembered calls whole
unfolding sent remembered notify
sent-Alike t [] swept whole r h = refl
sent-Alike t ((now, message, key) ∷ calls) swept whole r h =
    let k = key_for message key in
    let same = h k now r.0 in
    elim (Bool-cases (within notify_throttle now (lookup k whole))) [
      | inl e ↦
          let ih = sent-Alike now calls swept whole r.1 (λ j u l. h j u (omega arith)) in
          rw (same, e) (ap (◌∷◌ false) ih)
      | inr e ↦
          let alike = Alike-insert now k swept whole (λ j u l. h j u (omega arith)) in
          let ih = sent-Alike now calls _ _ r.1 alike in rw (same, e) (ap (◌∷◌ true) ih)
    ]

-- Dropping the keys whose minute has passed never changes which notifications are sent, while time
-- does not run back: they are those that a throttle sends which remembers every key for ever.
pub sent-remembered : (calls : List Call) → Rises 0 calls → sent calls [] ≡ remembered calls []
sent-remembered calls r = sent-Alike 0 calls [] [] r (λ k now l. refl)
