-- ===== src/Live/State.antt =====
-- backend/internal/handlers/live_session.go: the state that a room polls, heartbeats and reactions.
-- The lengths of time are exact here, in microseconds; the code takes them in float64 seconds.
pub mod View
use onrol_infra.Base.{
  ℕ, zero, ◌+◌, ◌-◌, ◌*◌, ◌/◌, ◌%◌, ◌≡◌, Bool, true, false, not, ◌&&◌, ◌||◌, Option, none, some,
  List, [], ◌∷◌, ◌++◌, map, max, ltb, leb, ◌==◌, length, get_elem?, select, find, any,
  if◌then◌else◌, coalesce, is_some, is_empty, Str, codes, beq, Map, lookup, insert, sort_by, Reply,
  ok, fail, refuse,
}
use onrol_infra.Live.Tables.{
  ClassSession, Course, MediaAsset, Slide, Db, Caller, session_of, asset_of,
}
use onrol_infra.Live.Presence.{Presence, touch_presence, bump_reaction, presence_count}
use onrol_infra.Live.Reactions.{Accum, add_reaction, snapshot_reactions, normalize_reaction}
use onrol_infra.Live.Access.{Weather, Grant, Caches, live_access_cached, state_ttl}

-- What the server keeps in memory about all rooms.
pub record Memory (S : Type 0) : Type 0 where
  pub caches : Caches S
  pub presence : Presence
  pub reactions : Accum

-- An instant, also in Unix seconds.
pub record Instant : Type 0 where
  pub now : ℕ
  pub unix : ℕ

pub data Status : Type 0 where
  upcoming live preparing ended : Status

pub record StateView : Type 0 where
  pub server_now : ℕ
  pub starts_at : ℕ
  pub status : Status
  pub seconds_until_start : ℕ
  pub elapsed : Option ℕ
  pub duration : Option ℕ
  pub title : Str
  pub course : Str
  pub start_image : Str
  pub end_image : Str
  pub chat_enabled : Bool
  pub qa_enabled : Bool
  pub reactions_enabled : Bool
  pub viewers : ℕ
  pub paused : Bool
  pub blank : Bool
  pub muted : Bool
  pub banner : Str
  pub reload_seq : ℕ
  pub current_slide_id : Str
  pub slides_rev : ℕ
  pub slideshow : Bool
  pub reactions : Map ℕ
  pub reactions_seq : ℕ
  pub playlist_url : Option Str

abbrev pub usec : ℕ
usec = 1_000_000

abbrev pub live_end_grace_secs : ℕ
live_end_grace_secs = 25

-- A paused room stands at the moment of the pause.
abbrev pub clock_of : ℕ → ClassSession → ℕ
clock_of now s = coalesce s.paused_at now

abbrev pub has_manual_end : ℕ → ClassSession → Bool
has_manual_end now s = elim s.manual_ended_at [ none ↦ false | some t ↦ leb t now ]

-- `secs` is the duration of the recording and `ready` tells whether it has a playlist.
unfoldable pub status_at : ℕ → ClassSession → Bool → ℕ → Status
status_at now s ready secs =
    if ltb (clock_of now s) s.starts_at
    then upcoming
    else (if has_manual_end now s
        then ended
        else (if is_some s.media_asset_id && not ready
            then preparing
            else (if ltb 0 secs
                  && leb ((secs + live_end_grace_secs) * usec) (clock_of now s - s.starts_at)
                then ended
                else live)))

-- ORDER BY position, created_at
unfoldable pub album : Bool → Str → Db → List Slide
unfolding beq sort_by
album up session db =
    if up
    then sort_by (λ i. i.position)
        (sort_by (λ i. i.created_at) (select (λ i. beq i.session_id session) db.slides))
    else []

abbrev pub slideshow_pace : ℕ → ℕ
slideshow_pace secs = if ltb secs 2 then 2 else secs

abbrev pub slide_at : List Str → ℕ → Str → Str
slide_at [] step pinned = pinned
slide_at (i ∷ ids) step pinned = coalesce (get_elem? (i ∷ ids) (step % length (i ∷ ids))) pinned

-- The slide of the slideshow, else the pinned one.
unfoldable pub current_slide : ℕ → ClassSession → List Str → Str
current_slide now s ids = elim s.slideshow_at [
  | none ↦ coalesce s.current_slide_id []
  | some t ↦
      slide_at ids ((now - t) / usec / slideshow_pace s.slideshow_secs)
        (coalesce s.current_slide_id [])
]

abbrev pub is_live : Status → Bool
is_live upcoming = false
is_live live = true
is_live preparing = false
is_live ended = false

-- `sim` is the simulated headcount for a base and a length of time since the start.
unfoldable pub viewers_at : (ℕ → ℕ → ℕ) → ClassSession → Status → ℕ → ℕ → ℕ
viewers_at sim s status gone real =
    if ltb 0 s.viewer_base && is_live status
    then (let n = sim s.viewer_base gone in if ltb real n then n else real)
    else real

abbrev pub hls_of : Option MediaAsset → Str
hls_of none = []
hls_of (some a) = a.hls_url

abbrev pub secs_of : Option MediaAsset → ℕ
secs_of none = 0
secs_of (some a) = a.duration_seconds

abbrev pub playlist_of : Str → Str → ClassSession → Status → Str → Option Str
playlist_of base_url session s status hls =
    if not (is_live status)
    then none
    else (if not (is_empty s.live_hls_url)
        then some s.live_hls_url
        else (if not (is_empty hls)
            then some
                (base_url ++ (codes "/api/v1/me/live/" ++ (session ++ codes "/playlist.m3u8")))
            else none))

abbrev pub course_of : Db → Str → Option Course
course_of db id = find (λ k. beq k.id id) db.courses

-- The session with its course.
abbrev pub joined : Str → Db → Option (ClassSession × Course)
joined session db = elim (session_of db session) [
  | none ↦ none
  | some s ↦ elim (course_of db s.course_id) [ none ↦ none | some k ↦ some (s, k) ]
]

-- What the state is built with: the simulated headcount, the address of the site, and which
-- queries run.
pub record Setup : Type 0 where
  pub sim : ℕ → ℕ → ℕ
  pub base_url : Str
  pub row_up : Bool
  pub slides_up : Bool

abbrev pub view_of : Setup → Instant → Str → Db → ClassSession → Course → ℕ → Map ℕ × ℕ → StateView
view_of z at session db s k real batch =
    let asset = asset_of db s.media_asset_id in
    let status = status_at at.now s (not (is_empty (hls_of asset))) (secs_of asset) in
    let gone = clock_of at.now s - s.starts_at in
    record {
      server_now = at.now;
      starts_at = s.starts_at;
      status = status;
      seconds_until_start = (s.starts_at - clock_of at.now s) / usec;
      elapsed = some (gone / usec);
      duration = some (secs_of asset);
      title = s.title;
      course = k.title;
      start_image = s.start_image;
      end_image = s.end_image;
      chat_enabled = s.chat_enabled;
      qa_enabled = s.qa_enabled;
      reactions_enabled = s.reactions_enabled;
      viewers = viewers_at z.sim s status gone real;
      paused = is_some s.paused_at;
      blank = s.blank;
      muted = s.muted;
      banner = s.banner;
      reload_seq = s.reload_seq;
      current_slide_id = current_slide at.now s (map (λ i. i.id) (album z.slides_up session db));
      slides_rev = s.slides_rev;
      slideshow = is_some s.slideshow_at;
      reactions = batch.0;
      reactions_seq = batch.1;
      playlist_url = playlist_of z.base_url session s status (hls_of asset);
    }

abbrev pub with_reactions : {S : Type 0} → Accum → Memory S → Memory S
with_reactions acc m = record m { reactions = acc }

abbrev pub build_joined :
    {S : Type 0}
    → Setup
    → Instant
    → Str
    → Db
    → Memory S
    → Option (ClassSession × Course)
    → Reply StateView × Memory S
build_joined z at session db m none = (refuse 403 "not entitled to this session", m)
build_joined z at session db m (some (s, k)) =
    let snap = snapshot_reactions session m.reactions in
    (
      ok (
          view_of z at session db s k (presence_count at.unix session 30 m.presence)
            (snap.0, snap.1)),
      with_reactions snap.2 m,
    )

unfoldable pub build_live_state :
    {S : Type 0} → Setup → Instant → Str → Db → Memory S → Reply StateView × Memory S
unfolding beq
build_live_state z at session db m =
    if z.row_up
    then build_joined z at session db m (joined session db)
    else (refuse 500 "state load failed", m)
