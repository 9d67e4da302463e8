-- ===== src/Live/Playlist/Window.antt =====
-- Which segments the window of live_stream.go shows.
use onrol_infra.Base.{
  ℕ, zero, suc, ◌+◌, ◌-◌, ◌≤◌, ◌<◌, ◌≡◌, refl, ◌⊎◌, inl, inr, Bool-cases, subst, arith, List, [],
  ◌∷◌, leb, length, take, drop, length-drop,
}
use onrol_infra.Live.M3u8.{LiveSeg}
use onrol_infra.Live.Playlist.{edge_from, live_edge, window_start, window}

-- Where a segment starts.
pub start_of : ℕ → List LiveSeg → ℕ
start_of zero segs = 0
start_of (suc n) [] = 0
start_of (suc n) (s ∷ segs) = s.dur + start_of n segs

length-take : {A : Type 0} (n : ℕ) (xs : List A) → n ≤ length xs → length (take n xs) ≡ n
length-take zero xs h = refl
length-take (suc n) [] h = absurd (omega arith)
length-take (suc n) (x ∷ xs) h = omega (arith, length-take n xs (omega arith))

-- The loop from segment i on, which starts no later than it is.
edge_found :
    (elapsed start i edge : ℕ) (s : LiveSeg) (segs : List LiveSeg)
    → start ≤ elapsed
    → (k : ℕ) × (edge_from elapsed start i edge (s ∷ segs) ≡ i + k)
      × (k ≤ length segs)
      × (start + start_of k (s ∷ segs) ≤ elapsed)
      × ((k ≡ length segs) ⊎ (elapsed < start + start_of (k + 1) (s ∷ segs)))
unfolding edge_from start_of
edge_found elapsed start i edge s [] h = (0, ground arith, omega arith, omega arith, inl refl)
edge_found elapsed start i edge s (t ∷ segs) h = elim (Bool-cases (leb (start + s.dur) elapsed)) [
  | inl y ↦
      let (k, e, b, l, m) =
        edge_found elapsed (start + s.dur) (i + 1) i t segs (ground (arith, y)) in
      (suc k, ground (arith, e), omega (arith, b), omega (arith, l), ground (arith, m))
  | inr n ↦ (0, ground (arith, n), omega arith, omega arith, inr (ground (arith, n)))
]

-- What a segment has to be for the window of a recording at a position to end with it.
pub record IsWindow (elapsed edge : ℕ) (segs : List LiveSeg) : Type 0 where
  pub in_recording : edge < length segs
  pub begun : start_of edge segs ≤ elapsed
  pub newest : (edge + 1 ≡ length segs) ⊎ (elapsed < start_of (edge + 1) segs)
  pub up_to_edge : window_start edge + length (window edge segs) ≡ edge + 1
  pub bounded : length (window edge segs) ≤ 60

window_size :
    (edge : ℕ) (segs : List LiveSeg)
    → edge < length segs
    → (window_start edge + length (window edge segs) ≡ edge + 1) × (length (window edge segs) ≤ 60)
window_size edge segs h =
    let size =
      length-take (edge + 1 - window_start edge) (drop (window_start edge) segs)
        (omega (arith, h, length-drop (window_start edge) segs)) in
    (omega (arith, size, h), omega (arith, size, h))

-- The last segment that the window shows is the newest one that has begun, however long the
-- segments are; the window ends with it, counts its segments from the one that the playlist
-- numbers, and has at most 60.
pub live_edge-IsWindow :
    (elapsed : ℕ) (s : LiveSeg) (segs : List LiveSeg)
    → IsWindow elapsed (live_edge elapsed (s ∷ segs)) (s ∷ segs)
unfolding live_edge
live_edge-IsWindow elapsed s segs =
    let (k, e, b, l, m) = edge_found elapsed 0 0 0 s segs (omega arith) in
    let size = window_size k (s ∷ segs) (omega (arith, b)) in
    let here : k ≡ edge_from elapsed 0 0 0 (s ∷ segs) = omega (arith, e) in
    subst (λ i. IsWindow elapsed i (s ∷ segs)) here
      (record {
        in_recording = omega (arith, b);
        begun = omega (arith, l);
        newest = ground (arith, m);
        up_to_edge = size.0;
        bounded = size.1;
      })
