-- ===== src/Live/Playlist/Shared.antt =====
-- The body of the playlist that all viewers of a room share (live_stream.go, LivePlaylist).
use onrol_infra.Base.{
  ℕ, ◌+◌, ◌<◌, ◌≡◌, refl, ◌∙◌, ap, sym, arith, Bool, true, false, none, some, Str, beq_refl, Reply,
  ok, fail, lookup, lookup-insert,
}
use onrol_infra.Live.Tables.{Db, Caller}
use onrol_infra.Live.Access.{Caches, playlist_allowed, playlist_body_ttl}
use onrol_infra.Live.M3u8.{Loaded}
use onrol_infra.Live.Playlist.{
  Source, build_live_playlist, current_body, keep_body, or_built, serve_allowed, live_playlist,
}

module _ {S : Type 0} where
  allowed-playlists :
      (c : Caller) (up : Bool) (now : ℕ) (session : Str) (db : Db) (k : Caches S)
      → (playlist_allowed c up now session db k).1.playlists ≡ k.playlists
  unfolding playlist_allowed
  allowed-playlists c up now session db k = ground arith

  kept :
      (now : ℕ) (session body : Str) (k : Caches S) (r : Reply Str × Db × Loaded) (db' : Db)
      (m' : Loaded) (k' : Caches S)
      → keep_body now session k r ≡ (ok body, db', m', k')
      → lookup session k'.playlists ≡ some (body, now + playlist_body_ttl)
  kept now session body k (fail e, db, m) db' m' k' h = absurd (ground arith)
  kept now session body k (ok b, db, m) db' m' k' h = ground (
    arith,
    lookup-insert session session (b, now + playlist_body_ttl) k.playlists,
    beq_refl session,
  )

  served :
      (z : Source) (now : ℕ) (session body : Str) (db : Db) (m : Loaded) (g : Bool × Caches S)
      → g.0 ≡ true
      → current_body now (lookup session g.1.playlists) ≡ some body
      → serve_allowed z now session db m g ≡ (ok body, db, m, g.1)
  served z now session body db m (true, k) a h = rw (h) refl
  served z now session body db m (false, k) a h = absurd (cc)

  built :
      (z : Source) (now : ℕ) (session body : Str) (db db' : Db) (m m' : Loaded)
      (g : Bool × Caches S) (k' : Caches S)
      → current_body now (lookup session g.1.playlists) ≡ none
      → serve_allowed z now session db m g ≡ (ok body, db', m', k')
      → lookup session k'.playlists ≡ some (body, now + playlist_body_ttl)
  built z now session body db db' m m' (false, k) k' h e = absurd (ground arith)
  built z now session body db db' m m' (true, k) k' h e =
      kept now session body k (build_live_playlist z now session db m) db' m' k'
        (ap (or_built z now session db m k) (sym h) ∙ e)

  -- A playlist that was built for a room is what everybody who is let in gets for the next one and
  -- a half seconds; no such request builds another one, fetches anything or writes to the database.
  pub playlist_again :
      (c c' : Caller) (up up' : Bool) (z y : Source) (now later : ℕ) (session body : Str)
      (db db' db2 : Db) (m m' m2 : Loaded) (k k' : Caches S)
      → current_body now (lookup session k.playlists) ≡ none
      → live_playlist c up z now session db m k ≡ (ok body, db', m', k')
      → later < now + playlist_body_ttl
      → (playlist_allowed c' up' later session db2 k').0 ≡ true
      → live_playlist c' up' y later session db2 m2 k'
        ≡ (ok body, db2, m2, (playlist_allowed c' up' later session db2 k').1)
  unfolding live_playlist
  playlist_again c c' up up' z y now later session body db db' db2 m m' m2 k k' miss h soon
        allowed =
      let stored =
        built z now session body db db' m m' (playlist_allowed c up now session db k) k'
          (rw (allowed-playlists c up now session db k) miss) h in
      served y later session body db2 m2 (playlist_allowed c' up' later session db2 k') allowed
        (rw (allowed-playlists c' up' later session db2 k', stored) (ground arith))
