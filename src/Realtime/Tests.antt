-- ===== src/Realtime/Tests.antt =====
-- Witnesses on a task with a message and an album.
use tgvive.Prelude.{
  ℕ, List, none, [], ◌≡◌, ◌∷◌, if◌then◌else◌, true, false, some, suc, ◌⊎◌, length, ◌≤◌, arith, zero,
  nat_eq, ◌+◌, All,
}
use tgvive.Prelude.{refl}
use tgvive.Filter.{Msg, Media, converted}
use tgvive.Realtime.{
  Job, RuntimeTask, single, new_chan, latest_processed_id, enqueue, ensure_album_waiter, add_waiter,
}
use tgvive.Realtime.Dispatch.{
  Arrival, dispatch, World, admit, finish, see, accepts, add_to_album, is_behind, fire_timer,
  has_target, in_album, has_grouper, await_album, after_waiter, see_in, grouping,
}
use tgvive.Realtime.Taken.{IsQueuedLast, IsInAlbum, dispatch_taken}
use tgvive.Grouper.{AlbumGroup, AlbumGrouper, album_key, new_grouper, album_key_eq}
use tgvive.Prelude.Map.{lookup}
use tgvive.Realtime.Late.{IsLost, late_message-IsLost}
use tgvive.Realtime.Poll.{PollEnv, poll_from}
use tgvive.Realtime.Jobs.{JobEnv, Work, handle_job}
use tgvive.Prelude.Int.{pos, ◌≤ℤ◌, ◌<ℤ◌, int_eq}
use tgvive.Text.{text}
use tgvive.Prelude.Results.{ok}
use tgvive.Realtime.Counts.{pending_enough}
use tgvive.Realtime.Happenings.{Happening, happen_all, sees, awaits, adds, takes}
use tgvive.Realtime.Spending.{count_plain, IsAhead}
use tgvive.Realtime.Done.{cursor_of, handle_job-IsDone}
use tgvive.Realtime.Ending.{IsDone}
use tgvive.Realtime.Budget.{poll_within_budget}

abbrev plain : ℕ → Msg ℕ
plain n = record {
  id = pos n;
  grouped_id = pos 0;
  has_media = false;
  message = text "news";
  entities = [];
}

abbrev photo : ℕ → Msg ℕ
photo n = record { id = pos n; grouped_id = pos 9; has_media = true; message = []; entities = [] }

abbrev task_with : List (Job ℕ) → ℕ → RuntimeTask ℕ
task_with jobs pending = record {
  task_id = 7;
  run_id = 1;
  has_target_peer = true;
  publish_type = [];
  keep_reply = false;
  ctx_over = false;
  is_done = false;
  queue = jobs;
  album_wait = [];
  chans = [];
  next_chan = 0;
  history_order = pos 1;
  history_cursor = pos 4;
  history_max_id = pos 4;
  pending = pending;
  to_count = 0;
  to_discount = 0;
}

abbrev world_with : List (Job ℕ) → ℕ → World ℕ
world_with jobs pending = record {
  rt = task_with jobs pending;
  dedup = none;
  grouper = some (new_grouper (pos 0));
  adding = [];
}

abbrev push_call : Arrival
push_call = record { now = pos 1; is_active = true; pick = true; from_pull = false }

many_jobs : ℕ → List (Job ℕ)
many_jobs zero = []
many_jobs (suc n) = single false (plain n) ∷ many_jobs n

takes_photo : (dispatch push_call (photo 6) (world_with [] 0)).1 ≡ true
unfolding dispatch finish admit see accepts is_behind has_target in_album has_grouper await_album
    after_waiter ensure_album_waiter add_waiter enqueue see_in lookup
takes_photo = refl

dispatch_taken_example :
    IsQueuedLast push_call
      (photo 6)
      (world_with [] 0)
      (dispatch push_call (photo 6) (world_with [] 0)).0
    ⊎ IsInAlbum push_call
        (photo 6)
        (world_with [] 0)
        (dispatch push_call (photo 6) (world_with [] 0)).0
dispatch_taken_example = dispatch_taken push_call (photo 6) (world_with [] 0) takes_photo

abbrev photo_comes : List (Happening ℕ)
photo_comes = sees push_call (photo 6) ∷ awaits push_call (photo 6) ∷ takes ∷ adds 0 ∷ []

pending_enough_example :
    let t = (happen_all photo_comes (world_with [] 3)).rt in
    (length t.queue ≤ 512) × (3 + length t.queue + t.to_discount ≤ t.pending + t.to_count)
pending_enough_example =
    pending_enough 3 photo_comes (world_with [] 3) (omega arith) refl refl refl refl

-- The album of a photo, with its waiter.
abbrev photo_group : AlbumGroup (Msg ℕ)
photo_group = record { timer_id = 1; msgs = photo 6 ∷ [] }

abbrev photo_grouper : AlbumGrouper (Msg ℕ)
photo_grouper = record {
  window = pos 120000000;
  seq = 1;
  groups = (album_key 7 (pos 9), photo_group) ∷ [];
}

abbrev waiting_world : World ℕ
waiting_world = record {
  rt = record (task_with [] 0) {
    album_wait = (pos 9, 0) ∷ [];
    chans = (0, new_chan) ∷ [];
    next_chan = 1;
  };
  dedup = none;
  grouper = some photo_grouper;
  adding = [];
}

second_photo : (admit push_call (photo 8) waiting_world).1 ≡ grouping
unfolding admit see accepts is_behind has_target in_album has_grouper await_album after_waiter
    ensure_album_waiter see_in lookup
second_photo = refl

has_chan : lookup 0 waiting_world.rt.chans ≡ some new_chan
unfolding lookup
has_chan = refl

has_wait : lookup (pos 9) waiting_world.rt.album_wait ≡ some 0
unfolding lookup
has_wait = refl

has_photos : lookup (album_key 7 (pos 9)) photo_grouper.groups ≡ some photo_group
unfolding lookup
has_photos = refl

late_message-IsLost_example :
    IsLost
      (photo 8)
      0
      (photo 6 ∷ [])
      (add_to_album (photo 8) (fire_timer (pos 9) 1 (admit push_call (photo 8) waiting_world).0))
late_message-IsLost_example =
    late_message-IsLost push_call (photo 8) waiting_world photo_grouper 0 photo_group refl
      (omega arith) has_chan has_wait has_photos second_photo

abbrev media_of : Media ℕ
media_of = record {
  content_type = λ msg. if msg.has_media then text "image" else text "text";
  file_name = λ msg. [];
  convert = λ msg. converted;
  is_reply = λ msg. false;
}

abbrev poll_answers : PollEnv ℕ ℕ
poll_answers = record {
  media = media_of;
  is_active = true;
  is_paused = false;
  now = 0;
  remote_latest = ok (pos 6);
  fetch = λ turn request. ok (plain 6 ∷ plain 5 ∷ []);
  meanwhile = λ turn. [];
  call = λ turn. push_call;
}

poll_within_budget_example :
    let st = poll_from poll_answers (pos 1) (pos 6) (world_with [] 0) in
    (pos 0 ≤ℤ pos 1 → (pos st.units ≤ℤ pos 1) × (st.units ≤ 500))
    × (count_plain poll_answers st.found ≤ st.units)
    × All (IsAhead (latest_processed_id (task_with [] 0)) (pos 6)) st.found
poll_within_budget_example = poll_within_budget poll_answers (pos 1) (pos 6) (world_with [] 0)

abbrev job_answers : JobEnv ℕ ℕ
job_answers = record {
  media = media_of;
  rules = λ turn. record {
    allowed_types = none;
    allow_suffixes = [];
    block_suffixes = [];
    keep_reply = false;
  };
  has_keywords = false;
  keyword = λ msg. (msg, false);
  wait_quota = λ turn units. none;
  clock = λ turn. 0 ∷ [];
  send = λ turn msg. none;
  send_album = λ turn msgs. none;
}

abbrev job_work : Work ℕ
job_work = record { rt = task_with [] 0; tasks = []; turn = 0; effects = [] }

plain_cursor : pos 0 <ℤ cursor_of job_answers (single false (plain 6)) job_work
unfolding cursor_of
plain_cursor = omega arith

handle_job-IsDone_example :
    IsDone
      (cursor_of job_answers (single false (plain 6)) job_work)
      job_work
      (handle_job job_answers (single false (plain 6)) job_work)
handle_job-IsDone_example =
    handle_job-IsDone job_answers (single false (plain 6)) job_work (omega arith) plain_cursor
