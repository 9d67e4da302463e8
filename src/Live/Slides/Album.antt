-- ===== src/Live/Slides/Album.antt =====
-- What adding and removing a slide (live_session.go) leaves of the album and of the slide shown.
use onrol_infra.Base.{
  ℕ, ◌≤◌, ◌≡◌, refl, arith, Bool, true, false, ◌&&◌, Option, none, some, List, [], ◌∷◌, ◌++◌, leb,
  count, Str, beq, update_where, delete_where, Reply, ok, fail,
}
use onrol_infra.Live.Tables.{ClassSession, Slide, Db, Caller}
use onrol_infra.Live.Access.{Weather, Caches, invalidate_live_caches, require_live_host}
use onrol_infra.Live.Slides.{
  SlideStmts, is_of_session, next_position, live_slide_add, live_slide_delete, insert_slide,
  remove_slide, new_slide, check_slide, unpin, id_is,
}

-- Slides of a room at a position or behind it.
abbrev pub at_or_behind : Str → ℕ → Slide → Bool
at_or_behind session p i = is_of_session session i && leb p i.position

next_is_free :
    (session : Str) (p : ℕ) (is : List Slide)
    → next_position session is ≤ p
    → count (at_or_behind session p) is ≡ 0
unfolding next_position
next_is_free session p [] h = refl
next_is_free session p (i ∷ is) h = ground (arith, next_is_free session p is)

deleted_none :
    (session id : Str) (is : List Slide)
    → count
        (λ i. beq i.id id && is_of_session session i)
        (delete_where (λ i. beq i.id id && is_of_session session i) is)
      ≡ 0
unfolding delete_where
deleted_none session id [] = refl
deleted_none session id (i ∷ is) = ground (arith, deleted_none session id is)

-- A room that shows the slide.
abbrev pub shows : Str → Str → ClassSession → Bool
shows session id s =
    id_is session s && (elim s.current_slide_id [ none ↦ false | some i ↦ beq i id ])

unpinned :
    (session id : Str) (ss : List ClassSession)
    → count (shows session id) (update_where (id_is session) (unpin id) ss) ≡ 0
unfolding update_where
unpinned session id [] = refl
unpinned session id (s ∷ ss) = ground (arith, unpinned session id ss)

added :
    {S : Type 0} (c : Caller) (q : SlideStmts) (session id : Str) (r : Reply Str) (db after : Db)
    (k k' : Caches S)
    → insert_slide q session r db k ≡ (ok id, after, k')
    → (image : Str) × (r ≡ ok image)
      × (after.slides ≡ db.slides ++ new_slide q session image db.slides ∷ [])
      × (count (at_or_behind session (new_slide q session image db.slides).position) db.slides ≡ 0)
      × (k' ≡ invalidate_live_caches session k)
added c q session id (fail e) db after k k' h = absurd (ground arith)
added c q session id (ok image) db after k k' h =
    (image, refl, ground arith, next_is_free session _ db.slides (omega arith), ground arith)

cleared :
    {S : Type 0} (c : Caller) (q : SlideStmts) (session id id' : Str) (r : Reply (Unit {0}))
    (db after : Db) (k k' : Caches S)
    → q.first_up ≡ true
    → q.second_up ≡ true
    → remove_slide q session id r db k ≡ (ok id', after, k')
    → (r ≡ ok tt)
      × (count (λ i. beq i.id id && is_of_session session i) after.slides ≡ 0)
      × (count (shows session id) after.sessions ≡ 0)
      × (k' ≡ invalidate_live_caches session k)
cleared c q session id id' (fail e) db after k k' one two h = absurd (ground arith)
cleared c q session id id' (ok u) db after k k' one two h =
    ground (arith, deleted_none session id db.slides, unpinned session id db.sessions)

-- A slide is added only by a host of the session's course, as an image of at most 8,000,000 bytes. It
-- goes to the end of the album: no slide of the room has its position or a later one.
pub slide_add_last :
    {S : Type 0} (c : Caller) (w : Weather) (q : SlideStmts) (session id : Str) (body : Option Str)
    (db after : Db) (k k' : Caches S)
    → live_slide_add c w q session body db k ≡ (ok id, after, k')
    → (image : Str) × (check_slide c w session body db ≡ ok image)
      × (after.slides ≡ db.slides ++ new_slide q session image db.slides ∷ [])
      × (count (at_or_behind session (new_slide q session image db.slides).position) db.slides ≡ 0)
      × (k' ≡ invalidate_live_caches session k)
unfolding live_slide_add
slide_add_last c w q session id body db after k k' h =
    added c q session id (check_slide c w session body db) db after k k' h

-- Where both statements run, a slide that was removed is no longer in the album of the room, the
-- room does not show it, and its caches are renewed.
pub slide_delete_clears :
    {S : Type 0} (c : Caller) (w : Weather) (q : SlideStmts) (session id id' : Str) (db after : Db)
    (k k' : Caches S)
    → q.first_up ≡ true
    → q.second_up ≡ true
    → live_slide_delete c w q session id db k ≡ (ok id', after, k')
    → (require_live_host c w session db ≡ ok tt)
      × (count (λ i. beq i.id id && is_of_session session i) after.slides ≡ 0)
      × (count (shows session id) after.sessions ≡ 0)
      × (k' ≡ invalidate_live_caches session k)
unfolding live_slide_delete
slide_delete_clears c w q session id id' db after k k' one two h =
    cleared c q session id id' (require_live_host c w session db) db after k k' one two h
