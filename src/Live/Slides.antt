-- ===== src/Live/Slides.antt =====
-- backend/internal/handlers/live_session.go, the image album of a room.
pub mod Album
use onrol_infra.Base.{
  ℕ, zero, ◌+◌, ◌≡◌, max, Bool, true, false, not, ◌&&◌, ◌||◌, Option, none, some, List, [], ◌∷◌,
  ◌++◌, map, leb, length, select, if◌then◌else◌, Str, codes, beq, has_prefix, trim_space,
  update_where, delete_where, Reply, ok, fail, refuse, ◌>>=◌, ◌>>◌, require,
}
use onrol_infra.Live.Tables.{ClassSession, Slide, Db, Caller}
use onrol_infra.Live.Access.{
  Weather, Caches, Grant, live_access_cached, invalidate_live_caches, require_live_host,
}
use onrol_infra.Live.State.{album}

-- Which statements run, and what the insert takes from the database.
pub record SlideStmts : Type 0 where
  pub first_up : Bool
  pub second_up : Bool
  pub new_id : Str
  pub now : ℕ

abbrev pub is_of_session : Str → Slide → Bool
is_of_session session i = beq i.session_id session

-- COALESCE(MAX(position) + 1, 0), for positions that are not negative.
unfoldable pub next_position : Str → List Slide → ℕ
unfolding beq
next_position session [] = 0
next_position session (i ∷ is) =
    let rest = next_position session is in
    if is_of_session session i then max (i.position + 1) rest else rest

abbrev pub new_slide : SlideStmts → Str → Str → List Slide → Slide
new_slide q session image is = record {
  id = q.new_id;
  session_id = session;
  image = image;
  position = next_position session is;
  created_at = q.now;
}

abbrev pub bump_slides : ClassSession → ClassSession
bump_slides s = record s { slides_rev = s.slides_rev + 1 }

abbrev pub image_of : Option Str → Reply Str
image_of none = refuse 400 "invalid body"
image_of (some s) = ok (trim_space s)

-- The checks before the insert.
unfoldable pub check_slide : Caller → Weather → Str → Option Str → Db → Reply Str
unfolding has_prefix trim_space
check_slide c w session body db = do
  require_live_host c w session db
  image ← image_of body
  require (has_prefix image (codes "data:image/")) 400 "expected an image data URI"
  require (leb (length image) 8_000_000) 413 "image too large"
  ok image

abbrev pub with_sessions : Bool → (ClassSession → Bool) → (ClassSession → ClassSession) → Db → Db
with_sessions up p f db = if up then record db { sessions = update_where p f db.sessions } else db

abbrev pub id_is : Str → ClassSession → Bool
id_is session s = beq s.id session

-- A slide that is shown is taken off.
abbrev pub unpin : Str → ClassSession → ClassSession
unpin id s = record s {
  slides_rev = s.slides_rev + 1;
  current_slide_id = elim s.current_slide_id [
    | none ↦ none
    | some i ↦ if beq i id then none else some i
  ];
}

abbrev pub without_slide : Bool → Str → Str → Db → Db
without_slide up session id db =
    if up
    then record db { slides = delete_where (λ i. beq i.id id && is_of_session session i) db.slides }
    else db

abbrev pub list_slides : Bool → Bool → Str → Db → Reply (List Slide)
list_slides allowed up session db =
    if not allowed
    then refuse 403 "not entitled"
    else (if up then ok (album up session db) else refuse 500 "slides load failed")

module _ {S : Type 0} where
  abbrev pub insert_slide : SlideStmts → Str → Reply Str → Db → Caches S → Reply Str × Db × Caches S
  insert_slide q session (fail e) db k = (fail e, db, k)
  insert_slide q session (ok image) db k =
      if q.first_up
      then (
        ok q.new_id,
        with_sessions q.second_up (id_is session) bump_slides
            (record db { slides = db.slides ++ new_slide q session image db.slides ∷ [] }),
        invalidate_live_caches session k,
      )
      else (refuse 500 "add failed", db, k)

  unfoldable pub live_slide_add :
      Caller → Weather → SlideStmts → Str → Option Str → Db → Caches S → Reply Str × Db × Caches S
  unfolding update_where beq
  live_slide_add c w q session body db k =
      insert_slide q session (check_slide c w session body db) db k

  abbrev pub remove_slide :
      SlideStmts → Str → Str → Reply (Unit {0}) → Db → Caches S → Reply Str × Db × Caches S
  remove_slide q session id (fail e) db k = (fail e, db, k)
  remove_slide q session id (ok u) db k = (
    ok id,
    with_sessions q.second_up (id_is session) (unpin id) (without_slide q.first_up session id db),
    invalidate_live_caches session k,
  )

  -- The errors of both statements are dropped.
  unfoldable pub live_slide_delete :
      Caller → Weather → SlideStmts → Str → Str → Db → Caches S → Reply Str × Db × Caches S
  unfolding update_where delete_where beq
  live_slide_delete c w q session id db k =
      remove_slide q session id (require_live_host c w session db) db k

  unfoldable pub live_slides_list :
      Caller → Weather → ℕ → Bool → Str → Db → Caches S → Reply (List Slide) × Caches S
  live_slides_list c w now up session db k =
      let g = live_access_cached c w now session db k in
      (list_slides g.0.allowed up session db, g.1)
