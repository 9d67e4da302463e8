-- ===== src/Lib.antt =====
-- The live classroom, the accounts, the courses and the invoices of the ONROL backend.
--
-- The program is a Go server (backend/internal) over a PostgreSQL database.
--
-- Accounts. A user signs in from a device (handlers/auth.go), which is bound to the account up to a
-- limit and gets a token (auth/jwt.go). Every later request passes middleware/auth.go, which reads
-- the device table again. handlers/devices.go revokes, renames and resets devices,
-- handlers/auth_reset.go replaces a forgotten password.
--   Account/Devices.antt   the tables users and devices, bindDevice, listing, revoking, renaming
--   Account/Token.antt     auth.Manager: Issue and Parse
--   Account/Gates.antt     RequireAuth, RequireToken, the role gates, AttestationDecision
--   Account/SignIn.antt    Login
--   Account/Reset.antt     ForgotPassword, ResetPassword
--
-- The live room. A viewer of a class polls its state, sends heartbeats and reactions, reads and
-- writes chat and questions; the host controls the room, shows slides and reads the attendance
-- (handlers/live_session.go). What is polled comes from caches and maps in memory
-- (handlers/live_cache.go), which a control command drops and a janitor prunes.
--   Live/Tables.antt       the rows of the database and canManageCourse (handlers/lms.go)
--   Live/Presence.antt     presence, liveEvents, and flushAttendance into live_attendance
--   Live/Reactions.antt    reactAccum: tallies, batches and their numbers
--   Live/Access.antt       liveAccess, liveAccessCached, playlistAllowed, invalidateLiveCaches
--   Live/Control.antt      LiveControl
--   Live/State.antt        buildLiveState
--   Live/Poll.antt         cachedLiveState, LiveSessionState, LiveHeartbeat, LiveReact
--   Live/M3u8.antt         parseM3U8 and loadLivePlaylist (handlers/live_stream.go)
--   Live/Playlist.antt     the sliding window and LivePlaylist (handlers/live_stream.go)
--   Live/Listeners.antt    LiveListeners
--   Live/Chat.antt         chat and Q&A
--   Live/Slides.antt       the image album
--   Live/Report.antt       LiveAttendance
--
-- Courses. A student enrols or asks to, works through the lessons of the modules, and takes quizzes
-- and assignments (handlers/lms_student.go); the staff builds the course (handlers/lms_courses.go,
-- lms_edit.go) and its assessments (handlers/lms_assess.go), and decides and grades. All of it passes
-- isEnrolled or canManageCourse.
--   Learn/Tables.antt      the rows of the database, canManageCourse
--   Learn/Enroll.antt      SelfEnroll, enrollUserInCourse, isEnrolled, Catalog
--   Learn/Admit.antt       ManualEnroll, DecideEnrollmentRequest, AddPrerequisite
--   Learn/Progress.antt    CompleteLesson, issueCertificate, MyCourses
--   Learn/Scoring.antt     the marking loop of SubmitAssessment and its matchers
--   Learn/Desk.antt        the tables of the assessments and the gates of their handlers
--   Learn/Submit.antt      SubmitAssessment
--   Learn/Take.antt        TakeAssessment
--   Learn/Grade.antt       GradeSubmission
--   Learn/Questions.antt   CreateAssessment, UpdateAssessment, DeleteAssessment
--   Learn/Quiz.antt        AddQuestion, UpdateQuestion, DeleteQuestion, ListQuestions
--   Learn/Files.antt       UploadSubmissionFile and its companions (handlers/lms_assign_files.go)
--   Learn/Courses.antt     slugify, CreateCourse, UpdateCourse; requireGroupScope (handlers/lms.go)
--   Learn/Lessons.antt     AddLesson, UpdateLesson, MoveLesson, DeleteLesson
--   Learn/Modules.antt     AddModule, UpdateModule, MoveModule, DeleteModule
--   Learn/Outline.antt     nestModules, CourseContent, GetManagedCourse
--   Learn/Streak.antt      MyStreak (handlers/lms_leaderboard.go)
--
-- Invoices and payments (handlers/crm_finance.go).
--   Crm/Invoices.antt      all handlers of them
--
-- The modules below each of these prove what the file names say; Base holds the shared helpers,
-- Tests the runs on concrete rows.
--
-- How the code is read. A handler is a function from the caller, the request and the state to an
-- answer and the state that is left. A string is the list of its bytes. A table is a list of rows, and
-- a Go map an association list in the order of some iteration; the objects that nestModules shares
-- between lists are a store that the lists refer to. Whether a statement of the database succeeds is a
-- Boolean of the caller (`up` and the like), so that the error branches are covered; where the code
-- ignores an error, so does the model. A foreign key or a CHECK of a table that a value breaks makes
-- its statement fail, and a cascade removes what the table's migration says. Critical sections under a
-- mutex, and the transaction of bindDevice under its row lock, are single steps; a history is a list
-- or a chain of such steps. Times are natural numbers: Unix seconds in memory, for tokens, sign-ins and
-- reset codes, microseconds since the earliest timestamp of the database elsewhere, and days for the
-- streak.
-- Positions, points, scores and amounts are whole numbers and not negative.
--
-- Bounds. All loops run over lists and need no fuel, but for the trimming of spaces, whose rounds the
-- length of the text bounds, and the loop of MyStreak over the days. Its fuel is one more than the
-- user has check-ins, which is proved to be enough.
--
-- What is a parameter: the answer of the CDN, strconv.Atoi and strconv.ParseFloat, the comparison of
-- floats in matchNumeric, json.Unmarshal, bcrypt, the attestor, golang-jwt, the Unicode part of
-- strings.ToLower, strings.ToUpper and strings.EqualFold, lower() of the database, its reading of a
-- time, time.LoadLocation and the day of an instant in a zone, the simulated headcount (a sum of
-- float64 sines), and the answers of managerCovers and of the scope query of requireUserInScope.
-- float64 lengths of time, percentages and taxes are exact here. The JSON of an answer stands as a
-- record; mail is not sent but returned.
--
-- Not modelled: the key of a recording (LiveHLSKey), the course-wide attendance and the transcript of
-- a class; day names, grades and play URLs in the outline of a course; the deletion of a course,
-- categories, the module store and batches; leaderboards; the rest of the CRM, media, AI, push and
-- Zoho handlers of backend/internal; the Flutter app, and the deployment.
pub mod Base
pub mod Account
pub mod Live
pub mod Learn
pub mod Crm
pub mod Tests
