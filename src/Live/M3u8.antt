-- ===== src/Live/M3u8.antt =====
-- backend/internal/handlers/live_stream.go: parseM3U8 and loadLivePlaylist. strconv.Atoi and
-- strconv.ParseFloat (into microseconds), and the answer of the CDN, are the parameters of `Outer`.
use onrol_infra.Base.{
  ℕ, ◌+◌, ◌==◌, Option, none, some, List, [], ◌∷◌, ◌++◌, reverse, leb, length, if◌then◌else◌,
  is_empty, Str, codes, strip, has_prefix, trim_space, Map, lookup, insert,
}
use onrol_infra.Live.Tables.{MediaAsset}

pub record LiveSeg : Type 0 where
  pub name : Str
  pub dur : ℕ

pub record ParsedPlaylist : Type 0 where
  pub segs : List LiveSeg
  pub total : ℕ
  pub target_dur : ℕ
  pub key_line : Str
  pub base : Str

-- `fetch` is the body of an answer with status 200, up to 8 MiB.
pub record Outer : Type 0 where
  pub atoi : Str → Option ℕ
  pub parse_float : Str → Option ℕ
  pub fetch : Str → Option Str

-- Where the parse stands: the playlist, and a duration whose segment is still to come.
pub record Scan : Type 0 where
  pub pp : ParsedPlaylist
  pub pending : Option ℕ

abbrev pub set_key : Str → Scan → Scan
set_key line k = record k { pp = record k.pp { key_line = line } }

abbrev pub set_target : Option ℕ → Scan → Scan
set_target none k = k
set_target (some v) k = record k { pp = record k.pp { target_dur = v } }

abbrev pub set_pending : Option ℕ → Scan → Scan
set_pending none k = k
set_pending (some d) k = record k { pending = some d }

abbrev pub add_seg : Str → Option ℕ → Scan → Scan
add_seg line none k = k
add_seg line (some d) k = record k {
  pp = record k.pp {
    segs = k.pp.segs ++ record { name = line; dur = d } ∷ [];
    total = k.pp.total + d;
  };
  pending = none;
}

-- The text before the first comma.
unfoldable pub before_comma : Str → Str
before_comma [] = []
before_comma (c ∷ s) = if c == b',' then [] else c ∷ before_comma s

abbrev pub other_line : Str → Scan → Scan
other_line line k = if has_prefix line (codes "#") then k else add_seg line k.pending k

abbrev pub duration_line : Outer → Str → Scan → Scan
duration_line o line k = elim (strip line (codes "#EXTINF:")) [
  | some v ↦ set_pending (o.parse_float (trim_space (before_comma v))) k
  | none ↦ other_line line k
]

abbrev pub target_line : Outer → Str → Scan → Scan
target_line o line k = elim (strip line (codes "#EXT-X-TARGETDURATION:")) [
  | some v ↦ set_target (o.atoi (trim_space v)) k
  | none ↦ duration_line o line k
]

abbrev pub scan_line : Outer → Str → Scan → Scan
scan_line o line k =
    if is_empty line
    then k
    else (if has_prefix line (codes "#EXT-X-KEY:") then set_key line k else target_line o line k)

-- bufio.ScanLines
unfoldable pub lines_from : Str → Str → List Str
lines_from line [] = if is_empty line then [] else reverse line ∷ []
lines_from line (c ∷ s) =
    if c == 10 then reverse line ∷ lines_from [] s else lines_from (c ∷ line) s

-- The scanner stops at a line that its buffer of 1 MiB does not hold.
unfoldable pub scan_lines : Outer → List Str → Scan → Scan
unfolding before_comma strip has_prefix trim_space
scan_lines o [] k = k
scan_lines o (raw ∷ lines) k =
    let rest = scan_lines o lines (scan_line o (trim_space raw) k) in
    if leb 1_048_576 (length raw) then k else rest

unfoldable pub parse_m3u8 : Outer → Str → Str → ParsedPlaylist
unfolding scan_lines lines_from
parse_m3u8 o text base =
    (scan_lines o (lines_from [] text) (record {
      pp = record { segs = []; total = 0; target_dur = 6; key_line = []; base = base };
      pending = none;
    })).pp

-- strings.TrimSuffix
abbrev pub trim_suffix : Str → Str → Str
trim_suffix s t = elim (strip (reverse s) (reverse t)) [ none ↦ s | some r ↦ reverse r ]

abbrev pub Loaded : Type 0
Loaded = Map ParsedPlaylist

abbrev pub keep_playlist :
    Str → ParsedPlaylist → List LiveSeg → Loaded → Option ParsedPlaylist × Loaded
keep_playlist id pp [] m = (none, m)
keep_playlist id pp (s ∷ segs) m = (some pp, insert id pp m)

abbrev pub parse_fetched : Outer → MediaAsset → Option Str → Loaded → Option ParsedPlaylist × Loaded
parse_fetched o a none m = (none, m)
parse_fetched o a (some text) m =
    let pp = parse_m3u8 o text (trim_suffix a.hls_url (codes "index.m3u8")) in
    keep_playlist a.id pp pp.segs m

abbrev pub or_fetched :
    Outer → MediaAsset → Loaded → Option ParsedPlaylist → Option ParsedPlaylist × Loaded
or_fetched o a m (some pp) = (some pp, m)
or_fetched o a m none = parse_fetched o a (o.fetch a.hls_url) m

unfoldable pub load_live_playlist : Outer → MediaAsset → Loaded → Option ParsedPlaylist × Loaded
unfolding lookup insert strip
load_live_playlist o a m = or_fetched o a m (lookup a.id m)
