-- ===== src/Live/Access/Freshness.antt =====
-- How long a cached grant of live_cache.go is good, and what invalidation drops.
use onrol_infra.Base.{
  ℕ, ◌+◌, ◌≡◌, ◌≢◌, refl, Bool, true, false, none, some, [], ◌∷◌, ◌++◌, ltb, if◌then◌else◌, Str,
  beq_refl, has_prefix, has_prefix-append, lookup, lookup-insert, lookup-update_all, lookup-delete,
  IsUnique, arith, any, ◌==◌, inl, inr, ap, subst, Bool-cases,
}
use mathlib.Core.List.{append_assoc}
use onrol_infra.Live.Tables.{Db, Caller}
use onrol_infra.Live.Access.{
  Grant, AccessEntry, Caches, Weather, access_ttl, bar, key_of, live_entry, compute_grant, remember,
  live_access_cached, unless_prefixed, invalidate_live_caches,
}

module _ {S : Type 0} where
  hit-grant :
      (c : Caller) (w : Weather) (now : ℕ) (session : Str) (db : Db) (k : Caches S) (g : Grant)
      → live_entry now (lookup (key_of session c.id) k.access) ≡ some g
      → live_access_cached c w now session db k ≡ (g, k)
  unfolding live_access_cached
  hit-grant c w now session db k g e = rw (e, live_access_cached) refl

  pub miss-grant :
      (c : Caller) (w : Weather) (now : ℕ) (session : Str) (db : Db) (k : Caches S)
      → live_entry now (lookup (key_of session c.id) k.access) ≡ none
      → live_access_cached c w now session db k
        ≡ remember (key_of session c.id) now (compute_grant c w session db) k
  unfolding live_access_cached
  miss-grant c w now session db k e = rw (e, live_access_cached) refl

  remembered :
      (key : Str) (now later : ℕ) (g : Grant × Bool) (k : Caches S)
      → g.1 ≡ true
      → live_entry later (lookup key (remember key now g k).1.access)
        ≡ (if ltb later (now + access_ttl) then some g.0 else none)
  remembered key now later g k h = ground (
    arith,
    h,
    lookup-insert key key (record { grant = g.0; exp = now + access_ttl }) k.access,
    beq_refl key,
  )

  -- A grant that was computed and is cacheable answers the caller's polls of that session for 45
  -- seconds, whatever becomes of the tables; from then on the tables answer.
  pub grant_lasts_ttl :
      (c : Caller) (w w' : Weather) (now later : ℕ) (session : Str) (db db' : Db) (k : Caches S)
      → live_entry now (lookup (key_of session c.id) k.access) ≡ none
      → (compute_grant c w session db).1 ≡ true
      → let k' = (live_access_cached c w now session db k).1 in
        (live_access_cached c w' later session db' k').0 ≡ (
          if ltb later (now + access_ttl)
          then (compute_grant c w session db).0
          else (compute_grant c w' session db').0)
  grant_lasts_ttl c w w' now later session db db' k miss cacheable =
      let key = key_of session c.id in
      let g = compute_grant c w session db in
      let k' = (live_access_cached c w now session db k).1 in
      let kept = remembered key now later g k cacheable in
      let same : k' ≡ (remember key now g k).1 =
        ap (λ (r : Grant × Caches S). r.1) (miss-grant c w now session db k miss) in
      let now_there : live_entry later (lookup key k'.access)
          ≡ (if ltb later (now + access_ttl) then some g.0 else none) =
        rw same kept in
      elim (Bool-cases (ltb later (now + access_ttl))) [
        | inl on ↦ rw on (
            ap (λ (r : Grant × Caches S). r.0)
              (hit-grant c w' later session db' k' g.0 (rw on at now_there)))
        | inr off ↦ rw off (
            ap (λ (r : Grant × Caches S). r.0)
              (miss-grant c w' later session db' k' (rw off at now_there)))
      ]

  -- Where the caches hold every key once, invalidation drops the state block and the playlist of
  -- the session, and any caller's next access check of it is computed from the tables.
  pub invalidate_refreshes :
      (c : Caller) (w : Weather) (now : ℕ) (session : Str) (db : Db) (k : Caches S)
      → IsUnique k.access
      → IsUnique k.states
      → IsUnique k.playlists
      → let k' = invalidate_live_caches session k in
        ((live_access_cached c w now session db k').0 ≡ (compute_grant c w session db).0)
        × (lookup session k'.states ≡ none)
        × (lookup session k'.playlists ≡ none)
  unfolding invalidate_live_caches
  invalidate_refreshes c w now session db k u v p =
      let prefix = session ++ bar ∷ [] in
      let k' = invalidate_live_caches session k in
      let hit : has_prefix (key_of session c.id) prefix ≡ true =
        subst (λ t. has_prefix t prefix ≡ true) (append_assoc session (bar ∷ []) c.id)
          (has_prefix-append prefix c.id) in
      let gone : lookup (key_of session c.id) k'.access ≡ none = ground (
        arith,
        lookup-update_all (unless_prefixed {V = AccessEntry} prefix) (key_of session c.id) k.access
            u,
        hit,
      ) in
      (
        ap (λ (r : Grant × Caches S). r.0)
            (miss-grant c w now session db k' (ap (live_entry now) gone)),
        ground (arith, lookup-delete session session k.states v, beq_refl session),
        ground (arith, lookup-delete session session k.playlists p, beq_refl session),
      )

-- A byte that does not stand in a text.
abbrev pub Lacks : ℕ → Str → Type 0
Lacks b s = any (λ c. c == b) s ≡ false

-- An id without the separator is found again in front of it.
key-prefix :
    (s s' u : Str)
    → Lacks bar s
    → Lacks bar s'
    → has_prefix (s' ++ bar ∷ u) (s ++ bar ∷ []) ≡ true
    → s ≡ s'
unfolding has_prefix
key-prefix [] [] u h h' e = refl
key-prefix [] (c ∷ s') u h h' e = absurd (ground (arith, e, h'))
key-prefix (d ∷ s) [] u h h' e = absurd (ground (arith, e, h))
key-prefix (d ∷ s) (c ∷ s') u h h' e = ground (arith, e, h, h', key-prefix s s' u)

module _ {S : Type 0} where
  -- Ids being free of the separator, as UUIDs are, invalidation leaves the grants of every other
  -- session as they were.
  pub invalidate_spares_others :
      (session other user : Str) (k : Caches S)
      → IsUnique k.access
      → Lacks bar session
      → Lacks bar other
      → session ≢ other
      → lookup (key_of other user) (invalidate_live_caches session k).access
        ≡ lookup (key_of other user) k.access
  unfolding invalidate_live_caches
  invalidate_spares_others session other user k u h h' ne = ground (
    arith,
    lookup-update_all (unless_prefixed {V = AccessEntry} (session ++ bar ∷ [])) (key_of other user)
        k.access u,
    key-prefix session other user h h',
  )
