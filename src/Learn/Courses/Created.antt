-- ===== src/Learn/Courses/Created.antt =====
-- What CreateCourse stores (lms_courses.go).
use onrol_infra.Base.{
  ◌≡◌, refl, sym, ap, ◌∙◌, subst, same_answer, arith, Bool, true, false, not, ◌&&◌, some, [], ◌∷◌,
  ◌++◌, if◌then◌else◌, any, Bool-cases, ◌⊎◌, inl, inr, Str, beq, is_empty, Reply, ok, fail, refuse,
}
use onrol_infra.Account.SignIn.{Outside}
use onrol_infra.Live.Tables.{Caller}
use onrol_infra.Learn.Tables.{School, Scope, CourseRow}
use onrol_infra.Learn.Enroll.{is_offered}
use onrol_infra.Learn.Modules.{then_do}
use onrol_infra.Learn.Courses.{
  CourseStmt, find_instructor, CourseReq, slugify, owner_of, label_for, is_admin, is_instructor,
  has_label, new_course, check_create_course, insert_course_row, create_course,
}
use onrol_infra.Learn.Courses.Slug.{is_slug, slugify-slug}

label_for-slug : (out : Outside) (req : CourseReq) → is_slug (label_for out req) ≡ true
unfolding label_for
label_for-slug out req = elim (Bool-cases (is_empty (slugify out req.label))) [
  | inl e ↦ rw e ((slugify-slug out req.title).0)
  | inr e ↦ rw e ((slugify-slug out req.label).0)
]

-- Who may own a new course.
abbrev pub MayOwn : Caller → School → Str → Type 0
MayOwn c s owner =
    (owner ≡ c.id) ⊎ ((is_admin c ≡ true) × (any (is_instructor owner) s.users ≡ true))

pick :
    (t u : Bool) (i m owner : Str)
    → (if t
        then (if u then ok i else refuse 400 "instructor_id is not a valid instructor")
        else ok m)
      ≡ ok owner
    → (owner ≡ m) ⊎ ((t ≡ true) × (u ≡ true) × (i ≡ owner))
pick true true i m owner h = inr (refl, refl, cc)
pick true false i m owner h = absurd (cc)
pick false u i m owner h = inl (cc)

owner_of-MayOwn :
    (up : CourseStmt → Bool) (c : Caller) (req : CourseReq) (s : School) (owner : Str)
    → owner_of up c req s ≡ ok owner
    → MayOwn c s owner
unfolding owner_of
owner_of-MayOwn up c req s owner h =
    elim (pick (not (is_empty req.instructor_id) && is_admin c)
      (up find_instructor && any (is_instructor req.instructor_id) s.users) req.instructor_id c.id
      owner h) [
        | inl e ↦ inl e
        | inr t ↦
            inr (ground arith, subst (λ i. any (is_instructor i) s.users ≡ true) t.2 (ground arith))
      ]

pub record IsCreated (out : Outside) (c : Caller) (s s' : School) (k : CourseRow) : Type 0 where
  pub stored : s'.courses ≡ s.courses ++ k ∷ []
  pub label : Str
  pub is_label : k.label ≡ some label
  pub is_text : is_slug label ≡ true
  pub not_empty : is_empty label ≡ false
  pub is_new : any (has_label out label) s.courses ≡ false
  pub is_hidden : (u : Caller) → is_offered u s' k ≡ false
  pub owner : Str
  pub is_owner : k.owner_id ≡ some owner
  pub may_own : MayOwn c s owner

check_create-shape :
    (up : CourseStmt → Bool) (out : Outside) (id : Str) (c : Caller) (g : Scope) (req : CourseReq)
    (s : School) (k : CourseRow) (owner : Str)
    → owner_of up c req s ≡ ok owner
    → check_create_course up out id c g (some req) s ≡ ok k
    → (k ≡ new_course id owner (label_for out req) req)
      × (is_empty (label_for out req) ≡ false)
      × (any (has_label out (label_for out req)) s.courses ≡ false)
unfolding check_create_course
check_create-shape up out id c g req s k owner e h = (ground arith, ground arith, ground arith)

checked :
    (up : CourseStmt → Bool) (out : Outside) (id : Str) (c : Caller) (g : Scope) (req : CourseReq)
    (s : School) (k : CourseRow) (r : Reply Str)
    → owner_of up c req s ≡ r
    → check_create_course up out id c g (some req) s ≡ ok k
    → IsCreated out c s (insert_course_row k s) k
unfolding check_create_course beq
checked up out id c g req s k (fail x) e h = absurd (ground arith)
checked up out id c g req s k (ok owner) e h =
    let t = check_create-shape up out id c g req s k owner e h in
    rw t.0 (record {
      stored = refl;
      label = label_for out req;
      is_label = refl;
      is_text = label_for-slug out req;
      not_empty = t.1;
      is_new = t.2;
      is_hidden = λ u. refl;
      owner = owner;
      is_owner = refl;
      may_own = owner_of-MayOwn up c req s owner e;
    })

-- A course that CreateCourse stores stands behind all others. Its label is of the form that slugify
-- makes, not empty, and up to the database's lower() no other course had it; no catalogue offers the
-- course; and it is owned by its creator or, where a manager or superadmin named one, by an active
-- instructor.
pub create_course-IsCreated :
    (up : CourseStmt → Bool) (out : Outside) (id : Str) (c : Caller) (g : Scope) (req : CourseReq)
    (s s' : School) (k : CourseRow)
    → create_course up out id c g (some req) s ≡ (ok k, s')
    → IsCreated out c s s' k
unfolding create_course
create_course-IsCreated up out id c g req s s' k h =
    go (check_create_course up out id c g (some req) s) refl h
  where
    go :
        (r : Reply CourseRow)
        → check_create_course up out id c g (some req) s ≡ r
        → then_do insert_course_row s r ≡ (ok k, s')
        → IsCreated out c s s' k
    go (fail x) q h = absurd (cc)
    go (ok j) q h =
        let (same, after) = same_answer j k (insert_course_row j s) s' h in
        subst (λ t. IsCreated out c s t k) after
          (subst (λ i. IsCreated out c s (insert_course_row i s) k) (sym same)
            (checked up out id c g req s k (owner_of up c req s) refl (q ∙ ap ok same)))
