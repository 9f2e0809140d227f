-- ===== src/Stats.antt =====
-- internal/global/stats.go: the counters of the program and its log. The clock's day and time are
-- arguments. A method is the sequence of its atomic operations, with none of another call between
-- them; Stats/Overlap puts the operations of two calls in another order.
-- Sampling the machine and the files of the dashboard are left out.
pub mod Ring
pub mod Hub
pub mod View
pub mod Pushes
pub mod Recent
pub mod Today
pub mod Overlap
mod Tests
use tgvive.Prelude.{
  ℕ, List, ◌+◌, if◌then◌else◌, ◌%◌, eqb, ltb, ◌&&◌, ◌^◌, length, [], not, leb, ◌++◌, ◌∷◌, ◌-◌, ◌||◌,
}
use tgvive.Prelude.Int.{ℤ, pos, ltb_ℤ, eqb_ℤ, negsuc, pos_part, neg_part}
use tgvive.Text.{Text, text_same, trim_space, contains_text, text}
use tgvive.Prelude.Int64.{◌+i◌}
use tgvive.Stats.Ring.{
  LogRing, LogLevel, LogEvent, new_log_ring, log_info, push_event, log_error, log_warn,
}
use tgvive.Stats.Hub.{LogHub, new_log_hub, publish_event}

pub record AppStats : Type 0 where
  pub seq : ℕ
  pub upload_total : ℕ
  pub download_total : ℕ
  pub pending : ℕ
  pub success : ℕ
  pub fail : ℕ
  pub filtered : ℕ
  pub comment_pending : ℕ
  pub comment_success : ℕ
  pub comment_fail : ℕ
  pub ffmpeg_active : ℤ
  pub biz_day : Text
  pub today_success : ℕ
  pub today_fail : ℕ
  pub today_filtered : ℕ
  pub logs : LogRing
  pub hub : LogHub
  pub persist_log_ch : List LogEvent
  pub log_chan : List Text

unfoldable pub new_app_stats : Text → AppStats
new_app_stats day = record {
  seq = 0;
  upload_total = 0;
  download_total = 0;
  pending = 0;
  success = 0;
  fail = 0;
  filtered = 0;
  comment_pending = 0;
  comment_success = 0;
  comment_fail = 0;
  ffmpeg_active = pos 0;
  biz_day = day;
  today_success = 0;
  today_fail = 0;
  today_filtered = 0;
  logs = new_log_ring (pos 600);
  hub = new_log_hub;
  persist_log_ch = [];
  log_chan = [];
}

-- The stores of ensureBizDay, each an atomic operation of its own.
abbrev pub store_biz_day : Text → AppStats → AppStats
store_biz_day day s = record s { biz_day = day }

abbrev pub zero_success : AppStats → AppStats
zero_success s = record s { today_success = 0 }

abbrev pub zero_fail : AppStats → AppStats
zero_fail s = record s { today_fail = 0 }

abbrev pub zero_filtered : AppStats → AppStats
zero_filtered s = record s { today_filtered = 0 }

unfoldable pub ensure_biz_day : Text → AppStats → AppStats
ensure_biz_day day s =
    if text_same s.biz_day day && not (text_same s.biz_day [])
    then s
    else zero_filtered (zero_fail (zero_success (store_biz_day day s)))

-- The sum of two uint64.
abbrev pub add_uint64 : ℕ → ℕ → ℕ
add_uint64 a b = (a + b) % 2 ^ 64

unfoldable pub add_upload_bytes : ℕ → AppStats → AppStats
add_upload_bytes n s =
    if eqb n 0 then s else record s { upload_total = add_uint64 s.upload_total n }

unfoldable pub add_download_bytes : ℕ → AppStats → AppStats
add_download_bytes n s =
    if eqb n 0 then s else record s { download_total = add_uint64 s.download_total n }

-- The two additions after the day is set, each an atomic operation of its own.
abbrev pub add_total_success : ℕ → AppStats → AppStats
add_total_success n s = record s { success = add_uint64 s.success n }

abbrev pub add_today_success : ℕ → AppStats → AppStats
add_today_success n s = record s { today_success = add_uint64 s.today_success n }

unfoldable pub count_success : ℕ → AppStats → AppStats
count_success n s = add_today_success n (add_total_success n s)

abbrev pub add_total_fail : ℕ → AppStats → AppStats
add_total_fail n s = record s { fail = add_uint64 s.fail n }

abbrev pub add_today_fail : ℕ → AppStats → AppStats
add_today_fail n s = record s { today_fail = add_uint64 s.today_fail n }

unfoldable pub count_fail : ℕ → AppStats → AppStats
count_fail n s = add_today_fail n (add_total_fail n s)

abbrev pub add_total_filtered : ℕ → AppStats → AppStats
add_total_filtered n s = record s { filtered = add_uint64 s.filtered n }

abbrev pub add_today_filtered : ℕ → AppStats → AppStats
add_today_filtered n s = record s { today_filtered = add_uint64 s.today_filtered n }

unfoldable pub count_filtered : ℕ → AppStats → AppStats
count_filtered n s = add_today_filtered n (add_total_filtered n s)

unfoldable pub inc_success : Text → AppStats → AppStats
inc_success day s = count_success 1 (ensure_biz_day day s)

unfoldable pub inc_fail : Text → AppStats → AppStats
inc_fail day s = count_fail 1 (ensure_biz_day day s)

unfoldable pub inc_filtered : Text → AppStats → AppStats
inc_filtered day s = count_filtered 1 (ensure_biz_day day s)

unfoldable pub add_success : Text → ℕ → AppStats → AppStats
add_success day n s = if eqb n 0 then s else count_success n (ensure_biz_day day s)

unfoldable pub add_fail : Text → ℕ → AppStats → AppStats
add_fail day n s = if eqb n 0 then s else count_fail n (ensure_biz_day day s)

unfoldable pub add_filtered : Text → ℕ → AppStats → AppStats
add_filtered day n s = if eqb n 0 then s else count_filtered n (ensure_biz_day day s)

-- The counter of AddPending: it does not go below zero.
unfoldable pub next_pending : ℤ → ℕ → ℕ
next_pending delta cur =
    if ltb_ℤ (pos 0) delta
    then add_uint64 cur (pos_part delta)
    else if leb cur (neg_part delta)
    then 0
    else cur - neg_part delta

unfoldable pub add_pending : ℤ → AppStats → AppStats
add_pending delta s =
    if eqb_ℤ delta (pos 0) then s else record s { pending = next_pending delta s.pending }

unfoldable pub set_comment_queue_stats : ℕ → ℕ → ℕ → AppStats → AppStats
set_comment_queue_stats pending success fail s = record s {
  comment_pending = pending;
  comment_success = success;
  comment_fail = fail;
}

unfoldable pub inc_ffmpeg_active : AppStats → AppStats
inc_ffmpeg_active s = record s { ffmpeg_active = s.ffmpeg_active +i pos 1 }

unfoldable pub dec_ffmpeg_active : AppStats → AppStats
dec_ffmpeg_active s = record s { ffmpeg_active = s.ffmpeg_active +i negsuc 0 }

-- A send to a channel of so much room that does not wait.
unfoldable pub try_send : {A : Type 0} → ℕ → A → List A → List A
try_send room a waiting = if ltb (length waiting) room then waiting ++ a ∷ [] else waiting

-- `strings.ToLower` is an argument.
module _ (to_lower : Text → Text) where
  unfoldable pub infer_log_level : Text → LogLevel
  infer_log_level msg =
      let m = to_lower (trim_space msg) in
      if text_same m []
      then log_info
      else if contains_text (text "[error]") m
          || contains_text (text "error") m
          || contains_text (text "失败") msg
          || contains_text (text "异常") msg
      then log_error
      else if contains_text (text "[warn]") m
          || contains_text (text "warn") m
          || contains_text (text "警告") msg
          || contains_text (text "暂停") msg
      then log_warn
      else log_info

  unfoldable pub log_event : ℤ → Text → AppStats → LogEvent
  log_event ts msg s = record {
    id = add_uint64 s.seq 1;
    ts = ts;
    level = infer_log_level msg;
    message = msg;
  }

  unfoldable pub broadcast_log : ℤ → Text → AppStats → AppStats
  broadcast_log ts raw s =
      let msg = trim_space raw in
      let ev = log_event ts msg s in
      if text_same msg [] then s else record s {
        seq = ev.id;
        logs = push_event ev s.logs;
        hub = publish_event ev s.hub;
        persist_log_ch = try_send 2048 ev s.persist_log_ch;
        log_chan = try_send 100 msg s.log_chan;
      }
