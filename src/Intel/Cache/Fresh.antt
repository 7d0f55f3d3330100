-- ===== src/Intel/Cache/Fresh.antt =====
-- The bound of the cache, and that it answers with nothing but what was stored lately.
use efe_process_monitor.Common.{
  ℕ, ◌-◌, ◌≤◌, ◌<◌, ◌≡◌, inl, inr, sym, ◌∙◌, Bool, false, not, none, some, [], ◌∷◌, List, list_eq,
  nat_eq, ◌=?◌, list_beq_iff, length, ltb, if◌then◌else◌, In, arith, Bool-cases, Option-cases,
}
use efe_process_monitor.Common.Texts.{Text}
use efe_process_monitor.Common.Maps.{
  Map, lookup, delete, lookup-insert, lookup-delete, lookup-keep, length-insert, length-delete,
}
use efe_process_monitor.Intel.Cache.{
  CacheEntry, max_ip_cache, lifetime, is_stale, cached_ip, make_room, store_ip,
}

module _ {D : Type 0} where
  pub store_ip-bound :
      (now : ℕ) (ip : Text) (d : D) (partial : Bool) (cache : Map Text (CacheEntry D))
      → length cache ≤ max_ip_cache
      → length (store_ip now ip d partial cache) ≤ max_ip_cache
  unfolding store_ip
  store_ip-bound now ip d partial cache h =
      let e : CacheEntry D = record { at = now; found = d; partial = partial } in
      let r : length (make_room now cache) ≤ 4095 = ground (arith) in
      omega (arith, length-insert ip e (make_room now cache), r)

  -- What is there for an address after a call was there before, or is what the call stored.
  make_room-lookup :
      (now : ℕ) (k : Text) (cache : Map Text (CacheEntry D)) (e : CacheEntry D)
      → lookup k (make_room now cache) ≡ some e
      → lookup k cache ≡ some e
  unfolding lookup
  make_room-lookup now k cache e h =
      ground (arith, lookup-keep k (λ j f. not (is_stale now f)) cache)

  answer-lookup :
      (now : ℕ) (ip k : Text) (cache : Map Text (CacheEntry D)) (e : CacheEntry D)
      → lookup k (cached_ip now ip cache).1 ≡ some e
      → lookup k cache ≡ some e
  unfolding cached_ip
  answer-lookup now ip k cache e h = elim (Option-cases (lookup ip cache)) [
    | inl n ↦ rw n at h
    | inr (f, n) ↦ elim (Bool-cases (is_stale now f)) [
      | inl b ↦
          let g : lookup k (delete ip cache) ≡ some e = rw (n, b) at h in
          ground (arith, lookup-delete k ip cache)
      | inr b ↦ rw (n, b) at h
    ]
  ]

  cached_ip-length :
      (now : ℕ) (ip : Text) (cache : Map Text (CacheEntry D))
      → length (cached_ip now ip cache).1 ≤ length cache
  unfolding cached_ip
  cached_ip-length now ip cache = ground (arith, length-delete ip cache)

  -- What an answer comes from.
  cached_ip-some :
      (now : ℕ) (ip : Text) (cache : Map Text (CacheEntry D)) (d : D)
      → (cached_ip now ip cache).0 ≡ some d
      → (e : CacheEntry D) × (lookup ip cache ≡ some e) × (e.found ≡ d) × (is_stale now e ≡ false)
  unfolding cached_ip
  cached_ip-some now ip cache d h = elim (Option-cases (lookup ip cache)) [
    | inl n ↦ absurd (ground arith)
    | inr (f, n) ↦ elim (Bool-cases (is_stale now f)) [
      | inl b ↦ absurd (ground arith)
      | inr b ↦ (f, n, ground arith, b)
    ]
  ]

  -- A result is answered with until its lifetime is over, and not after it.
  pub cached_ip-store_ip :
      (now later : ℕ) (ip : Text) (d : D) (partial : Bool) (cache : Map Text (CacheEntry D))
      → (cached_ip later ip (store_ip now ip d partial cache)).0
        ≡ (if ltb (later - now) (lifetime partial) then some d else none)
  unfolding cached_ip store_ip
  cached_ip-store_ip now later ip d partial cache =
      let e : CacheEntry D = record { at = now; found = d; partial = partial } in
      ground (arith, lookup-insert ip ip e (make_room now cache), list_beq_iff ip ip)

-- A call of one of the two functions.
pub data Call (D : Type 0) : Type 0 where
  ask : ℕ → Text → Call D
  store : ℕ → Text → D → Bool → Call D

-- The cache after calls, the latest of which stands first.
unfoldable pub cache_after : {D : Type 0} → List (Call D) → Map Text (CacheEntry D)
cache_after [] = []
cache_after (ask now ip ∷ earlier) = (cached_ip now ip (cache_after earlier)).1
cache_after (store now ip d partial ∷ earlier) = store_ip now ip d partial (cache_after earlier)

module _ {D : Type 0} where
  -- Whatever is asked and stored, the cache never holds more than 4096 addresses.
  pub cache_after-bound : (calls : List (Call D)) → length (cache_after calls) ≤ max_ip_cache
  unfolding cache_after
  cache_after-bound [] = omega arith
  cache_after-bound (ask now ip ∷ earlier) =
      omega (arith, cached_ip-length now ip (cache_after earlier), cache_after-bound earlier)
  cache_after-bound (store now ip d partial ∷ earlier) =
      store_ip-bound now ip d partial (cache_after earlier) (cache_after-bound earlier)

  cache_after-In :
      (calls : List (Call D)) (k : Text) (e : CacheEntry D)
      → lookup k (cache_after calls) ≡ some e
      → In (store e.at k e.found e.partial) calls
  unfolding cache_after lookup store_ip
  cache_after-In [] k e h = absurd (ground arith)
  cache_after-In (ask now ip ∷ earlier) k e h =
      inr (cache_after-In earlier k e (answer-lookup now ip k (cache_after earlier) e h))
  cache_after-In (store now ip d partial ∷ earlier) k e h =
      let n : CacheEntry D = record { at = now; found = d; partial = partial } in
      let g = sym (lookup-insert k ip n (make_room now (cache_after earlier))) ∙ h in
      elim (Bool-cases (ip =? k)) [
        | inl b ↦ let same : n ≡ e = ground arith in inl (ground (arith, list_beq_iff ip k))
        | inr b ↦
            let old = make_room-lookup now k (cache_after earlier) e (ground arith) in
            inr (cache_after-In earlier k e old)
      ]

  -- Every answer of the cache, after any calls, is what was stored for that very address at a time from
  -- which its lifetime has not yet passed.
  pub cached_ip-stored :
      (calls : List (Call D)) (now : ℕ) (ip : Text) (d : D)
      → (cached_ip now ip (cache_after calls)).0 ≡ some d
      → (at : ℕ) × (partial : Bool) × In (store at ip d partial) calls
        × (now - at < lifetime partial)
  cached_ip-stored calls now ip d h =
      let (e, l, f, s) = cached_ip-some now ip (cache_after calls) d h in
      let i = cache_after-In calls ip e l in (e.at, e.partial, rw f at i, ground arith)
