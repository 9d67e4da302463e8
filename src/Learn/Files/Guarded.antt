-- ===== src/Learn/Files/Guarded.antt =====
-- Who is given a file, and under which name (lms_assign_files.go).
use onrol_infra.Base.{
  ℕ, ◌≡◌, refl, subst, arith, Bool, true, false, not, Option, none, some, [], ◌∷◌, find, any,
  select, Bool-cases, ◌⊎◌, inl, inr, Str, beq, beq_iff, is_empty, trim_space, trim_space-any, Reply,
  ok, fail, ◌>>=◌, ◌>>◌, require,
}
use onrol_infra.Live.Tables.{Caller, is_ok}
use onrol_infra.Learn.Tables.{Scope, can_manage}
use onrol_infra.Learn.Enroll.{found_or}
use onrol_infra.Learn.Desk.{AssessmentRow, SubmissionFile, Desk, DeskStmt, read_file, assessment_of}
use onrol_infra.Learn.Files.{
  breaks_header, sanitize_filename, Download, with_course, file_of, may_download, sent,
  download_file,
}

any-select-not : (p : ℕ → Bool) (s : Str) → any p (select (λ b. not (p b)) s) ≡ false
any-select-not p [] = refl
any-select-not p (b ∷ s) = ground (arith, any-select-not p s)

-- A sanitized name can stand in a header, between quotes.
abbrev pub IsHeaderSafe : Str → Type 0
IsHeaderSafe s = (any breaks_header s ≡ false) × (is_empty s ≡ false)

sanitize-IsHeaderSafe : (s : Str) → IsHeaderSafe (sanitize_filename s)
unfolding sanitize_filename
sanitize-IsHeaderSafe s =
    let kept = select (λ b. not (breaks_header b)) s in
    let clean = trim_space-any breaks_header kept (any-select-not breaks_header s) in
    elim (Bool-cases (is_empty (trim_space (select (λ b. not (breaks_header b)) s)))) [
      | inl e ↦ rw e (refl, refl)
      | inr e ↦ rw e (clean, e)
    ]

-- The caller's own file, or one for an assessment of a course that the caller may manage.
abbrev pub MayRead : Caller → Scope → SubmissionFile → Desk → Type 0
MayRead c g f d =
    (c.id ≡ f.user_id)
    ⊎ ((a : AssessmentRow) × (assessment_of f.assessment_id d ≡ some a)
        × (can_manage c g a.course_id d.school ≡ ok tt))

is_ok-ok : (r : Reply (Unit {0})) → is_ok r ≡ true → r ≡ ok tt
is_ok-ok (ok u) h = refl
is_ok-ok (fail e) h = absurd (cc)

may_download-MayRead :
    (c : Caller) (g : Scope) (f : SubmissionFile) (a : AssessmentRow) (d : Desk)
    → assessment_of f.assessment_id d ≡ some a
    → may_download c g f a.course_id d ≡ true
    → MayRead c g f d
may_download-MayRead c g f a d e h = elim (Bool-cases (beq c.id f.user_id)) [
  | inl k ↦ inl ((beq_iff c.id f.user_id).0 k)
  | inr k ↦ inr (a, e, is_ok-ok (can_manage c g a.course_id d.school) (rw k at h))
]

abbrev pub IsGuarded : Caller → Scope → Str → Desk → Download → Type 0
IsGuarded c g id d r =
    (find (λ f. beq f.id id) d.files ≡ some r.file) × MayRead c g r.file d × IsHeaderSafe r.filename

sent_is : (f : SubmissionFile) (r : Download) → ok (sent f) ≡ ok r → sent f ≡ r
sent_is f r h = cc

row-IsGuarded :
    (c : Caller) (g : Scope) (id : Str) (d : Desk) (r : Download) (o : Option SubmissionFile)
    → find (λ f. beq f.id id) d.files ≡ o
    → (do
      row ← found_or "file not found" (file_of o d)
      require (may_download c g row.0 row.1 d) 403 "not allowed"
      ok (sent row.0))
      ≡ ok r
    → IsGuarded c g id d r
row-IsGuarded c g id d r none e h = absurd (cc)
row-IsGuarded c g id d r (some f) e h = go (assessment_of f.assessment_id d) refl h
  where
    go :
        (o : Option AssessmentRow)
        → assessment_of f.assessment_id d ≡ o
        → (do
          row ← found_or "file not found" (with_course f o)
          require (may_download c g row.0 row.1 d) 403 "not allowed"
          ok (sent row.0))
          ≡ ok r
        → IsGuarded c g id d r
    go none q h = absurd (cc)
    go (some a) q h = elim (Bool-cases (may_download c g f a.course_id d)) [
      | inl k ↦
          subst (IsGuarded c g id d) (sent_is f r (rw k at h))
            (e, may_download-MayRead c g f a d q k, sanitize-IsHeaderSafe f.filename)
      | inr k ↦ absurd (ground arith)
    ]

-- DownloadSubmissionFile gives the file of that id to its owner, or to one who may manage the course
-- of its assessment, and to nobody else; the name that it puts into the header is not empty and has
-- no quote, backslash or line break.
pub download-IsGuarded :
    (up : DeskStmt → Bool) (c : Caller) (g : Scope) (id : Str) (d : Desk) (r : Download)
    → download_file up c g id d ≡ ok r
    → IsGuarded c g id d r
unfolding download_file
download-IsGuarded up c g id d r h = elim (Bool-cases (up read_file)) [
  | inl e ↦ row-IsGuarded c g id d r (find (λ f. beq f.id id) d.files) refl (rw e at h)
  | inr e ↦ absurd (ground arith)
]
