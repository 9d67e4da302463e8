-- ===== src/Live/Playlist.antt =====
-- backend/internal/handlers/live_stream.go: the sliding window of a simulated live class.
-- Durations are microseconds.
pub mod Window
pub mod Shared
use onrol_infra.Base.{
  String, ℕ, zero, suc, ◌+◌, ◌-◌, ◌*◌, ◌/◌, ◌%◌, Bool, true, false, not, ◌&&◌, ◌||◌, Option, none,
  some, List, [], ◌∷◌, ◌++◌, ltb, leb, ◌==◌, length, take, drop, find, if◌then◌else◌, coalesce,
  is_empty, Str, codes, beq, strip, Map, lookup, insert, update_where, Reply, ok, fail, refuse,
}
use onrol_infra.Live.Tables.{ClassSession, MediaAsset, Db, Caller, session_of, asset_of}
use onrol_infra.Live.M3u8.{LiveSeg, ParsedPlaylist, Outer, Loaded, load_live_playlist}
use onrol_infra.Live.Access.{Caches, playlist_allowed, playlist_body_ttl}
use onrol_infra.Live.State.{clock_of, usec}

abbrev pub live_window_segments : ℕ
live_window_segments = 60

-- The loop over the segments: `start` is where segment `i` starts.
unfoldable pub edge_from : ℕ → ℕ → ℕ → ℕ → List LiveSeg → ℕ
edge_from elapsed start i edge [] = edge
edge_from elapsed start i edge (s ∷ segs) =
    let rest = edge_from elapsed (start + s.dur) (i + 1) i segs in
    if leb start elapsed then rest else edge

unfoldable pub live_edge : ℕ → List LiveSeg → ℕ
unfolding edge_from
live_edge elapsed segs = edge_from elapsed 0 0 0 segs

abbrev pub window_start : ℕ → ℕ
window_start edge = edge - (live_window_segments - 1)

abbrev pub window : ℕ → List LiveSeg → List LiveSeg
window edge segs = take (edge + 1 - window_start edge) (drop (window_start edge) segs)

-- %d
decimal_from : ℕ → ℕ → Str → Str
decimal_from zero n acc = acc
decimal_from (suc fuel) n acc =
    let more = decimal_from fuel (n / 10) ((n % 10 + b'0') ∷ acc) in
    if ltb n 10 then (n + b'0') ∷ acc else more

unfoldable pub decimal : ℕ → Str
unfolding decimal_from
decimal n = decimal_from (n + 1) n []

-- %.6f of seconds
abbrev pub fraction : ℕ → Str
fraction n =
    (n / 100_000 % 10 + b'0')
    ∷ (n / 10_000 % 10 + b'0')
    ∷ (n / 1_000 % 10 + b'0')
    ∷ (n / 100 % 10 + b'0')
    ∷ (n / 10 % 10 + b'0')
    ∷ (n % 10 + b'0')
    ∷ []

abbrev pub newline : ℕ
newline = 10

abbrev pub push_head : ℕ → Option (Str × Str) → Option (Str × Str)
push_head c none = none
push_head c (some (a, b)) = some (c ∷ a, b)

-- The texts before and behind the first occurrence of a marker.
unfoldable pub split_at : Str → Str → Option (Str × Str)
split_at marker [] = if is_empty marker then some ([], []) else none
split_at marker (c ∷ s) = elim (strip (c ∷ s) marker) [
  | some rest ↦ some ([], rest)
  | none ↦ push_head c (split_at marker s)
]

abbrev pub uri_marker : Str
uri_marker = codes "URI=" ++ b'"' ∷ []

abbrev pub swap_uri : Str → Str → Option (Str × Str) → Str
swap_uri line uri none = line
swap_uri line uri (some (head, rest)) = elim (split_at (b'"' ∷ []) rest) [
  | none ↦ line
  | some (old, tail) ↦ head ++ (uri_marker ++ (uri ++ b'"' ∷ tail))
]

unfoldable pub rewrite_key_uri : Str → Str → Str
unfolding split_at strip
rewrite_key_uri line uri = swap_uri line uri (split_at uri_marker line)

unfoldable pub render_segs : Str → List LiveSeg → Str
unfolding decimal
render_segs base [] = []
render_segs base (s ∷ segs) =
    codes "#EXTINF:"
    ++ (decimal (s.dur / usec)
        ++ (b'.' ∷ fraction (s.dur % usec)
            ++ (b',' ∷ newline ∷ base ++ (s.name ++ newline ∷ render_segs base segs))))

abbrev pub key_part : Str → Str → Str
key_part line uri = if is_empty line then [] else rewrite_key_uri line uri ++ newline ∷ []

abbrev pub key_uri : Str → Str → Str
key_uri base_url session = base_url ++ (codes "/api/v1/me/live/" ++ (session ++ codes "/hls.key"))

-- No #EXT-X-ENDLIST.
unfoldable pub render : Str → Str → ParsedPlaylist → ℕ → Str
unfolding live_edge decimal rewrite_key_uri render_segs
render base_url session pp elapsed =
    let edge = live_edge elapsed pp.segs in
    codes "#EXTM3U"
    ++ (newline ∷ codes "#EXT-X-VERSION:3"
        ++ (newline ∷ codes "#EXT-X-TARGETDURATION:"
            ++ (decimal pp.target_dur
                ++ (newline ∷ codes "#EXT-X-MEDIA-SEQUENCE:"
                    ++ (decimal (window_start edge)
                        ++ (newline ∷ key_part pp.key_line (key_uri base_url session)
                            ++ render_segs pp.base (window edge pp.segs)))))))

-- What the build takes from outside: the address of the site, which statements run, and what
-- loadLivePlaylist needs.
pub record Source : Type 0 where
  pub base_url : Str
  pub row_up : Bool
  pub backfill_up : Bool
  pub outer : Outer

abbrev pub set_duration : ℕ → MediaAsset → MediaAsset
set_duration n a = record a { duration_seconds = n }

-- An unknown duration is filled in, rounded to the second.
abbrev pub backfill : Bool → MediaAsset → ParsedPlaylist → Db → Db
backfill up a pp db =
    if up && a.duration_seconds == 0 && ltb 0 pp.total
    then record db {
      assets =
          update_where (λ b. beq b.id a.id) (set_duration ((pp.total + 500_000) / usec)) db.assets;
    }
    else db

abbrev pub build_loaded :
    Source
    → ℕ
    → Str
    → Db
    → ClassSession
    → MediaAsset
    → Option ParsedPlaylist × Loaded
    → Reply Str × Db × Loaded
build_loaded z now session db s a (none, m) = (refuse 502 "playlist unavailable", db, m)
build_loaded z now session db s a (some pp, m) = (
  if leb (clock_of now s) s.starts_at
      then refuse 425 "session has not started"
      else ok (render z.base_url session pp (clock_of now s - s.starts_at)),
  backfill z.backfill_up a pp db,
  m,
)

abbrev pub build_found :
    Source → ℕ → Str → Db → Loaded → ClassSession → Option MediaAsset → Reply Str × Db × Loaded
build_found z now session db m s none = (refuse 403 "not entitled to this session", db, m)
build_found z now session db m s (some a) =
    if is_empty a.hls_url
    then (refuse 409 "recording not ready", db, m)
    else build_loaded z now session db s a (load_live_playlist z.outer a m)

abbrev pub build_row :
    Source → ℕ → Str → Db → Loaded → Option ClassSession → Reply Str × Db × Loaded
build_row z now session db m none = (refuse 403 "not entitled to this session", db, m)
build_row z now session db m (some s) =
    build_found z now session db m s (asset_of db s.media_asset_id)

unfoldable pub build_live_playlist : Source → ℕ → Str → Db → Loaded → Reply Str × Db × Loaded
unfolding beq update_where render load_live_playlist
build_live_playlist z now session db m =
    if z.row_up
    then build_row z now session db m (session_of db session)
    else (refuse 500 "session load failed", db, m)

abbrev pub current_body : ℕ → Option (Str × ℕ) → Option Str
current_body now none = none
current_body now (some (body, exp)) = if ltb now exp then some body else none

module _ {S : Type 0} where
  abbrev pub keep_body :
      ℕ → Str → Caches S → Reply Str × Db × Loaded → Reply Str × Db × Loaded × Caches S
  keep_body now session k (fail e, db, m) = (fail e, db, m, k)
  keep_body now session k (ok body, db, m) = (
    ok body,
    db,
    m,
    record k { playlists = insert session (body, now + playlist_body_ttl) k.playlists },
  )

  abbrev pub or_built :
      Source → ℕ → Str → Db → Loaded → Caches S → Option Str → Reply Str × Db × Loaded × Caches S
  or_built z now session db m k (some body) = (ok body, db, m, k)
  or_built z now session db m k none =
      keep_body now session k (build_live_playlist z now session db m)

  abbrev pub serve_allowed :
      Source → ℕ → Str → Db → Loaded → Bool × Caches S → Reply Str × Db × Loaded × Caches S
  serve_allowed z now session db m (false, k) =
      (refuse 403 "not entitled to this session", db, m, k)
  serve_allowed z now session db m (true, k) =
      or_built z now session db m k (current_body now (lookup session k.playlists))

  -- `up` tells whether the query of the gate runs.
  unfoldable pub live_playlist :
      Caller → Bool → Source → ℕ → Str → Db → Loaded → Caches S → Reply Str × Db × Loaded × Caches S
  unfolding lookup insert
  live_playlist c up z now session db m k =
      serve_allowed z now session db m (playlist_allowed c up now session db k)
