-- ===== src/Tests/Stream.antt =====
-- Runs of the playlist of a simulated live class (live_stream.go).
use onrol_infra.Base.{none, ◌++◌, true, some, [], ◌∷◌, Str, codes, Reply}
use onrol_infra.Live.Tables.{MediaAsset, Db}
use onrol_infra.Live.Access.{Caches}
use onrol_infra.Live.M3u8.{LiveSeg, ParsedPlaylist, Outer, Loaded}
use onrol_infra.Live.Playlist.{Source, live_edge, live_playlist, render}
use onrol_infra.Live.Playlist.Window.{IsWindow, live_edge-IsWindow}
use onrol_infra.Tests.{s1, db1, class_row, student, no_caches}

abbrev seg : LiveSeg
seg = record { name = codes "s.ts"; dur = 6_000_000 }

live_edge-IsWindow_example : IsWindow 13_000_000 2 (seg ∷ seg ∷ seg ∷ seg ∷ [])
unfolding live_edge
live_edge-IsWindow_example = live_edge-IsWindow 13_000_000 seg (seg ∷ seg ∷ seg ∷ [])

abbrev video : MediaAsset
video = record {
  id = codes "v";
  is_ready = true;
  hls_url = codes "index.m3u8";
  duration_seconds = 12;
}

abbrev parsed : ParsedPlaylist
parsed = record {
  segs = seg ∷ seg ∷ [];
  total = 12_000_000;
  target_dur = 6;
  key_line = [];
  base = [];
}

-- A recording of two segments of six seconds.
abbrev text : Str
text =
    codes "#EXTM3U"
    ++ 10 ∷ codes "#EXTINF:6.000000,"
    ++ 10 ∷ codes "s.ts"
    ++ 10 ∷ codes "#EXTINF:6.000000,"
    ++ 10 ∷ codes "s.ts"
    ++ 10 ∷ codes "#EXT-X-ENDLIST"

abbrev outer : Outer
outer = record { atoi = λ s. none; parse_float = λ s. some 6_000_000; fetch = λ s. some text }

abbrev source : Source
source = record { base_url = codes "x"; row_up = true; backfill_up = true; outer = outer }

abbrev streamed : Db
streamed = record db1 {
  assets = video ∷ [];
  sessions = record class_row { media_asset_id = some (codes "v") } ∷ [];
}

abbrev none_loaded : Loaded
none_loaded = []

abbrev started : Reply Str × Db × Loaded × Caches (Unit {0})
started = live_playlist student true source 107_000_000 s1 streamed none_loaded no_caches

abbrev body : Str
body = render (codes "x") s1 parsed 7_000_000
