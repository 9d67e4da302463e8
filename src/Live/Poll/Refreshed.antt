-- ===== src/Live/Poll/Refreshed.antt =====
-- What the polls of a room answer after the host's control request (live_session.go, live_cache.go).
use onrol_infra.Base.{
  ℕ, ◌≡◌, refl, ap, sym, subst, ◌∙◌, arith, Bool, true, false, Option, none, some, [],
  if◌then◌else◌, Str, Reply, ok, fail, refuse, lookup, IsUnique, Bool-cases, inl, inr,
}
use onrol_infra.Live.Tables.{ClassSession, Course, Db, Caller, session_of}
use onrol_infra.Live.Access.{
  Grant, Caches, Weather, live_access_cached, compute_grant, remember, live_entry, key_of,
  invalidate_live_caches,
}
use onrol_infra.Live.Access.Freshness.{invalidate_refreshes, miss-grant}
use onrol_infra.Live.Control.{
  ControlReq, sets_of, update_session, save_session, check_control, finish_control, run_control,
  live_control, and_then,
}
use onrol_infra.Live.State.{
  Memory, Instant, StateView, Setup, build_live_state, build_joined, joined,
}
use onrol_infra.Live.Poll.{
  current_state, keep_state, cached_live_state, Polled, for_caller, answer_poll, with_caches,
  live_session_state,
}

abbrev pub empty_caches : Caches StateView
empty_caches = record { access = []; pallow = []; states = []; playlists = [] }

-- The answer to a poll, up to what it leaves in memory.
abbrev pub polled : Caller → Weather → Setup → Instant → Str → Db → Memory StateView → Reply Polled
polled c w z at session db m = (live_session_state c w z at session db m).0

-- An answer that is built from the tables does not read the caches.
built_alike :
    (z : Setup) (at : Instant) (session : Str) (db : Db) (m : Memory StateView)
    (j k : Caches StateView)
    → (build_live_state z at session db (with_caches m j)).0
      ≡ (build_live_state z at session db (with_caches m k)).0
unfolding build_live_state
built_alike z at session db m j k = elim (Bool-cases z.row_up) [
  | inr e ↦ rw e refl
  | inl e ↦ rw e (row (joined session db))
]
  where
    row :
        (o : Option (ClassSession × Course))
        → (build_joined z at session db (with_caches m j) o).0
          ≡ (build_joined z at session db (with_caches m k) o).0
    row none = refl
    row (some (s, c)) = refl

reply_for : Bool → Reply StateView → Reply Polled
reply_for staff (ok d) = ok (for_caller staff d)
reply_for staff (fail e) = fail e

answer-reply :
    (staff : Bool) (r : Reply StateView × Memory StateView)
    → (answer_poll staff r).0 ≡ reply_for staff r.0
unfolding reply_for
answer-reply staff (ok d, m) = refl
answer-reply staff (fail e, m) = refl

keep-same :
    (now : ℕ) (session : Str) (r : Reply StateView × Memory StateView)
    → (keep_state now session r).0 ≡ r.0
keep-same now session (ok d, m) = refl
keep-same now session (fail e, m) = refl

access-states :
    (c : Caller) (w : Weather) (now : ℕ) (session : Str) (db : Db) (k : Caches StateView)
    → (live_access_cached c w now session db k).1.states ≡ k.states
unfolding live_access_cached
access-states c w now session db k =
    go (live_entry now (lookup (key_of session c.id) k.access)) refl
  where
    kept :
        (g : Grant) (b : Bool) → (remember (key_of session c.id) now (g, b) k).1.states ≡ k.states
    kept g true = refl
    kept g false = refl

    go :
        (o : Option Grant)
        → live_entry now (lookup (key_of session c.id) k.access) ≡ o
        → (live_access_cached c w now session db k).1.states ≡ k.states
    go (some g) e = rw (e, live_access_cached) refl
    go none e =
        rw (e, live_access_cached)
          (kept (compute_grant c w session db).0 (compute_grant c w session db).1)

-- What the tables answer to a poll.
from_tables : Caller → Weather → Setup → Instant → Str → Db → Memory StateView → Reply Polled
from_tables c w z at session db m =
    let g = (compute_grant c w session db).0 in
    if g.allowed
    then reply_for g.is_staff (build_live_state z at session db (with_caches m empty_caches)).0
    else refuse 403 "not entitled to this session"

built_anew :
    (z : Setup) (at : Instant) (session : Str) (db : Db) (m : Memory StateView)
    (k : Caches StateView)
    → lookup session k.states ≡ none
    → (cached_live_state z at session db (with_caches m k)).0
      ≡ (build_live_state z at session db (with_caches m empty_caches)).0
unfolding cached_live_state
built_anew z at session db m k none_kept = rw (ap (current_state at.now) none_kept) (
    keep-same at.now session (build_live_state z at session db (with_caches m k))
    ∙ built_alike z at session db m k empty_caches)

chosen :
    (b : Bool) (p : Reply Polled × Memory StateView) (q r : Reply Polled) (n : Memory StateView)
    → p.0 ≡ q
    → (if b then p else (r, n)).0 ≡ (if b then q else r)
chosen true p q r n h = h
chosen false p q r n h = refl

polled_anew :
    (c : Caller) (w : Weather) (z : Setup) (at : Instant) (session : Str) (db : Db)
    (m : Memory StateView) (k : Caches StateView)
    → (live_access_cached c w at.now session db k).0 ≡ (compute_grant c w session db).0
    → lookup session k.states ≡ none
    → polled c w z at session db (with_caches m k) ≡ from_tables c w z at session db m
unfolding live_session_state from_tables
polled_anew c w z at session db m k fresh gone =
    let l = live_access_cached c w at.now session db k in
    let gone' : lookup session l.1.states ≡ none =
      ap (lookup session) (access-states c w at.now session db k) ∙ gone in
    let block =
      answer-reply l.0.is_staff (cached_live_state z at session db (with_caches m l.1))
      ∙ ap (reply_for l.0.is_staff) (built_anew z at session db m l.1 gone') in
    let built = (build_live_state z at session db (with_caches m empty_caches)).0 in
    let refused = refuse 403 "not entitled to this session" in
    chosen l.0.allowed
      (answer_poll l.0.is_staff (cached_live_state z at session db (with_caches m l.1)))
      (reply_for l.0.is_staff built) refused (with_caches m l.1) block
    ∙ ap (λ (g : Grant). if g.allowed then reply_for g.is_staff built else refused) fresh

-- What a control request that was carried out wrote.
pub record Wrote (now : ℕ) (session : Str) (body : Option ControlReq) (db db' : Db) : Type 0 where
  pub req : ControlReq
  pub is_body : body ≡ some req
  pub row : ClassSession
  pub was : session_of db session ≡ some row
  pub changed : ClassSession
  pub is_changed : update_session now (sets_of req) row ≡ some changed
  pub saved : db' ≡ save_session session (some changed) db

finish-Wrote :
    (now : ℕ) (session : Str) (req : ControlReq) (db db' : Db) (k k' : Caches StateView) (up : Bool)
    → run_control up now session (ok req) db k ≡ (ok tt, db', k')
    → Wrote now session (some req) db db' × (k' ≡ invalidate_live_caches session k)
finish-Wrote now session req db db' k k' false h = absurd (cc)
finish-Wrote now session req db db' k k' true h = go (session_of db session) refl h
  where
    go :
        (o : Option ClassSession)
        → session_of db session ≡ o
        → finish_control session (and_then o (update_session now (sets_of req))) db k
          ≡ (ok tt, db', k')
        → Wrote now session (some req) db db' × (k' ≡ invalidate_live_caches session k)
    go none e h = absurd (cc)
    go (some s) e h = written (update_session now (sets_of req) s) refl h
      where
        written :
            (o : Option ClassSession)
            → update_session now (sets_of req) s ≡ o
            → finish_control session o db k ≡ (ok tt, db', k')
            → Wrote now session (some req) db db' × (k' ≡ invalidate_live_caches session k)
        written none q h = absurd (cc)
        written (some t) q h = (
          record {
            req = req;
            is_body = refl;
            row = s;
            was = e;
            changed = t;
            is_changed = q;
            saved = sym (ap (λ p. p.1) h);
          },
          sym (ap (λ p. p.2) h),
        )

checked_body :
    (c : Caller) (w : Weather) (session : Str) (body : Option ControlReq) (db : Db)
    (req : ControlReq)
    → check_control c w session body db ≡ ok req
    → body ≡ some req
unfolding check_control
checked_body c w session none db req h = absurd (ground arith)
checked_body c w session (some r) db req h = ground arith

control-Wrote :
    (c : Caller) (w : Weather) (up : Bool) (now : ℕ) (session : Str) (body : Option ControlReq)
    (db db' : Db) (k k' : Caches StateView)
    → live_control c w up now session body db k ≡ (ok tt, db', k')
    → Wrote now session body db db' × (k' ≡ invalidate_live_caches session k)
unfolding live_control
control-Wrote c w up now session body db db' k k' h = go (check_control c w session body db) refl h
  where
    go :
        (r : Reply ControlReq)
        → check_control c w session body db ≡ r
        → run_control up now session r db k ≡ (ok tt, db', k')
        → Wrote now session body db db' × (k' ≡ invalidate_live_caches session k)
    go (fail e) q h = absurd (cc)
    go (ok req) q h =
        subst (λ b. Wrote now session b db db' × (k' ≡ invalidate_live_caches session k))
          (sym (checked_body c w session body db req q))
          (finish-Wrote now session req db db' k k' up h)

-- A control request that is carried out wrote what it asked for to the row of the session. Whatever
-- the caches held, provided that each of them holds a key once, the next poll of the session by
-- anybody, at whatever time, gets the answer that it gets from empty caches over the new tables; and
-- no playlist of the session is kept.
pub control_shows_next_poll :
    (c : Caller) (w : Weather) (up : Bool) (now : ℕ) (session : Str) (body : Option ControlReq)
    (db db' : Db) (k k' : Caches StateView) (v : Caller) (x : Weather) (z : Setup) (at : Instant)
    (m : Memory StateView)
    → IsUnique k.access
    → IsUnique k.states
    → IsUnique k.playlists
    → live_control c w up now session body db k ≡ (ok tt, db', k')
    → Wrote now session body db db'
      × (polled v x z at session db' (with_caches m k')
          ≡ polled v x z at session db' (with_caches m empty_caches))
      × (lookup session k'.playlists ≡ none)
unfolding lookup
control_shows_next_poll c w up now session body db db' k k' v x z at m ua us uk h =
    let (wrote, same) = control-Wrote c w up now session body db db' k k' h in
    let (fresh, no_block, no_list) = invalidate_refreshes v x at.now session db' k ua us uk in
    let from_empty =
      polled_anew v x z at session db' m empty_caches
        (ap (λ (r : Grant × Caches StateView). r.0)
          (miss-grant v x at.now session db' empty_caches refl))
        refl in
    (
      wrote,
      ap (λ j. polled v x z at session db' (with_caches m j)) same
          ∙ polled_anew v x z at session db' m (invalidate_live_caches session k) fresh no_block
          ∙ sym from_empty,
      ap (λ j. lookup session j.playlists) same ∙ no_list,
    )
