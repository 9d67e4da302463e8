-- ===== src/Tests.antt =====
-- Concrete rows and runs of the program's parts.
pub mod Room
pub mod Control
pub mod Talk
pub mod Accounts
pub mod Tokens
pub mod Stream
pub mod Learn
pub mod Desk
pub mod Outline
pub mod Courses
use onrol_infra.Base.{ℕ, Bool, true, false, Option, none, some, List, [], ◌∷◌, Str, codes}
use onrol_infra.Account.Devices.{User, Device}
use onrol_infra.Live.Tables.{
  ClassSession, Course, Enrollment, MediaAsset, Slide, ChatMessage, Question, Db, Caller,
}
use onrol_infra.Live.Access.{Weather, Caches}

abbrev pub s1 : Str
s1 = codes "s1"

abbrev pub s2 : Str
s2 = codes "s2"

abbrev pub k1 : Str
k1 = codes "k1"

abbrev pub asha_id : Str
asha_id = codes "asha"

abbrev pub asha : User
asha = record {
  id = asha_id;
  email = some (codes "a@x.in");
  username = none;
  login_id = none;
  phone = none;
  full_name = codes "Asha";
  role = codes "student";
  password_hash = codes "h";
  max_devices = 2;
  is_active = true;
  access_expires_at = none;
  batch = none;
}

abbrev pub student : Caller
student = record { id = asha_id; role = codes "student" }

abbrev pub boss : Caller
boss = record { id = codes "boss"; role = codes "manager" }

abbrev pub coach : Caller
coach = record { id = codes "coach"; role = codes "instructor" }

-- A class that starts at 100 seconds.
abbrev pub class_row : ClassSession
class_row = record {
  id = s1;
  course_id = k1;
  title = codes "Intro";
  starts_at = 100_000_000;
  media_asset_id = none;
  batch_number = none;
  chat_enabled = true;
  qa_enabled = true;
  reactions_enabled = true;
  viewer_base = 0;
  live_hls_url = [];
  start_image = [];
  end_image = [];
  paused_at = none;
  blank = false;
  muted = false;
  banner = [];
  manual_ended_at = none;
  reload_seq = 0;
  current_slide_id = none;
  slides_rev = 0;
  slideshow_at = none;
  slideshow_secs = 5;
}

abbrev pub course_row : Course
course_row = record { id = k1; title = codes "Course"; owner_id = none; group_id = none }

abbrev pub slide_row : Slide
slide_row = record {
  id = codes "i1";
  session_id = s1;
  image = codes "data:image/png;base64,AA";
  position = 4;
  created_at = 1;
}

abbrev pub message_row : ChatMessage
message_row = record {
  id = codes "m1";
  session_id = s1;
  user_id = codes "ravi";
  display_name = codes "Ravi";
  body = codes "hello";
  from_staff = false;
  created_at = 150_000_000;
}

abbrev pub question_row : Question
question_row = record {
  id = codes "q1";
  session_id = s1;
  user_id = asha_id;
  display_name = codes "Asha";
  body = codes "why";
  answer = [];
  answered = false;
  created_at = 150_000_000;
  answered_at = none;
  answered_by = none;
}

abbrev pub db1 : Db
db1 = record {
  users = asha ∷ [];
  courses = course_row ∷ [];
  enrollments = record { course_id = k1; user_id = asha_id; is_current = true } ∷ [];
  assets = [];
  sessions = class_row ∷ [];
  slides = slide_row ∷ [];
  chat = message_row ∷ [];
  questions = question_row ∷ [];
}

abbrev pub fair : Weather
fair = record { up = true; manage_up = true; covers = false }

abbrev pub no_caches : {S : Type 0} → Caches S
no_caches = record { access = []; pallow = []; states = []; playlists = [] }
