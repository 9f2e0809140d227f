-- ===== src/Window.antt =====
-- internal/engine/quota.go: the daily time window of a task, "HH:MM-HH:MM".
pub mod Parse
pub mod Next
mod Tests
use tgvive.Prelude.Results.{◌>>=◌, or_err, map_err}
use tgvive.Text.{Text, text, trim_space, split_at, replace_char, remove_char, atoi, text_same}
use tgvive.Clock.{Time, minutes_of, time_at_minutes, next_day}
use tgvive.Prelude.{
  Bool, false, ℕ, if◌then◌else◌, ltb, true, not, [], ◌*◌, eqb, ◌||◌, ◌+◌, leb, ◌/◌, ◌&&◌, ◌∷◌, ◌%◌,
  Option, some, none,
}
use tgvive.Prelude.Int.{ℤ, ltb_ℤ, pos, pos_part}
use tgvive.Prelude.Results.{Result, err, ok}

-- The errors of parseHHMM and parseRunWindow, without their texts.
pub data TimeError : Type 0 where
  empty_time invalid_hhmm invalid_hour invalid_minute out_of_range : TimeError

pub data WindowError : Type 0 where
  invalid_window : WindowError
  invalid_start invalid_end : TimeError → WindowError

pub record RunWindow : Type 0 where
  pub enabled : Bool
  pub start_min : ℕ
  pub end_min : ℕ
  pub all_day : Bool
  pub cross_midnight : Bool

abbrev pub no_window : RunWindow
no_window = record {
  enabled = false;
  start_min = 0;
  end_min = 0;
  all_day = false;
  cross_midnight = false;
}

-- The test of the two numbers, and the minute of the day.
pub minute_of_day : ℤ → ℤ → Result TimeError ℕ
minute_of_day h m =
    if ltb_ℤ h (pos 0) || ltb_ℤ (pos 23) h || ltb_ℤ m (pos 0) || ltb_ℤ (pos 59) m
    then err out_of_range
    else ok (pos_part h * 60 + pos_part m)

unfoldable pub parse_hhmm : Text → Result TimeError ℕ
unfolding minute_of_day
parse_hhmm raw =
    let s = trim_space raw in
    if text_same s [] then err empty_time else (do
      (hour, minute) ← or_err (split_at b':' s) invalid_hhmm
      h ← or_err (atoi hour) invalid_hour
      m ← or_err (atoi minute) invalid_minute
      minute_of_day h m)

-- internal/engine/scheduler.go
unfoldable pub format_hhmm : ℕ → Text
format_hhmm minutes =
    let m = if ltb (23 * 60 + 59) minutes then 23 * 60 + 59 else minutes in
    (b'0' + m / 60 / 10)
    ∷ (b'0' + m / 60 % 10)
    ∷ b':'
    ∷ (b'0' + m % 60 / 10)
    ∷ (b'0' + m % 60 % 10)
    ∷ []

-- The dashes that count as "-": em dash, en dash, full-width tilde and tilde.
pub normalize_dashes : Text → Text
normalize_dashes s =
    replace_char b'~' b'-'
      (replace_char 0xFF5E b'-' (replace_char 0x2013 b'-' (replace_char 0x2014 b'-' s)))

unfoldable pub window_of : ℕ → ℕ → RunWindow
window_of start end = record {
  enabled = true;
  start_min = start;
  end_min = end;
  all_day = eqb start end;
  cross_midnight = if eqb start end then false else ltb end start;
}

-- The two ends of a window, parsed.
unfoldable pub window_of_ends :
    Result TimeError ℕ → Result TimeError ℕ → Result WindowError RunWindow
window_of_ends first second = do
  start ← map_err invalid_start first
  end ← map_err invalid_end second
  ok (window_of start end)

-- The window of the two parts of a text, if it has two.
pub split_window : Option (Text × Text) → Result WindowError RunWindow
split_window none = err invalid_window
split_window (some (first, second)) = window_of_ends (parse_hhmm first) (parse_hhmm second)

unfoldable pub parse_run_window : Text → Result WindowError RunWindow
parse_run_window raw =
    let s = trim_space raw in
    if text_same s []
    then ok no_window
    else split_window (split_at b'-' (normalize_dashes (remove_char b' ' s)))

unfoldable pub contains : RunWindow → Time → Bool
contains w now =
    if not w.enabled || w.all_day
    then true
    else if not w.cross_midnight
    then leb w.start_min (minutes_of now) && ltb (minutes_of now) w.end_min
    else leb w.start_min (minutes_of now) || ltb (minutes_of now) w.end_min

unfoldable pub next_start : RunWindow → Time → Time
next_start w now =
    if not w.enabled || w.all_day
    then now
    else if not w.cross_midnight
    then if ltb (minutes_of now) w.start_min
      then time_at_minutes now w.start_min
      else time_at_minutes (next_day now) w.start_min
    else time_at_minutes now w.start_min
