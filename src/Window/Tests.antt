-- ===== src/Window/Tests.antt =====
-- Runs of the window code of internal/engine/quota.go.
use tgvive.Window.{
  parse_hhmm, format_hhmm, parse_run_window, contains, next_start, RunWindow, window_of, TimeError,
  split_window, window_of_ends, normalize_dashes,
}
use tgvive.Text.{trim_space, split_at, replace_char, atoi, remove_char, text}
use tgvive.Prelude.{true, ◌≡◌, false, arith, ltb, ◌<◌, ◌+◌, ◌-◌, ◌≤◌, refl, ◌%◌}
use tgvive.Window.Parse.{IsWindow, parse_hhmm-format_hhmm, parse_hhmm-lt}
use tgvive.Clock.{minutes_of, Time}
use tgvive.Prelude.Results.{ok, err}
use tgvive.Window.Next.{next_start_earliest, contains_cyclic}

parses_spaces_and_dashes : parse_run_window (text " 22:30 – 06:15 ") ≡ ok (window_of 1350 375)
unfolding parse_run_window split_window window_of_ends window_of normalize_dashes parse_hhmm
    trim_space split_at replace_char remove_char atoi
parses_spaces_and_dashes = refl

rejects_out_of_range : parse_hhmm (text "24:00") ≡ err TimeError.out_of_range
unfolding parse_hhmm trim_space split_at atoi
rejects_out_of_range = refl

accepts_signs : parse_hhmm (text "+7:-0") ≡ ok 420
unfolding parse_hhmm trim_space split_at atoi
accepts_signs = refl

abbrev night : RunWindow
night = record {
  enabled = true;
  start_min = 1350;
  end_min = 375;
  all_day = false;
  cross_midnight = true;
}

night-IsWindow : IsWindow night
night-IsWindow = ground arith

parse_hhmm-lt_example : 420 < 1440
unfolding parse_hhmm trim_space split_at atoi
parse_hhmm-lt_example = parse_hhmm-lt (text "+7:-0") 420 refl

parse_hhmm-format_hhmm_example : parse_hhmm (format_hhmm 1350) ≡ ok 1350
parse_hhmm-format_hhmm_example = parse_hhmm-format_hhmm 1350 (omega arith)

contains_cyclic_example :
    contains night 86400000000000
    ≡ ltb ((minutes_of 86400000000000 + 1440 - 1350) % 1440) ((375 + 1440 - 1350) % 1440)
contains_cyclic_example =
    contains_cyclic night 86400000000000 night-IsWindow refl (λ e. omega arith)

-- At noon.
next_start_earliest_example :
    (43200000000000 < next_start night 43200000000000)
    × (contains night (next_start night 43200000000000) ≡ true)
    × ((t : Time)
        → 43200000000000 ≤ t
        → t < next_start night 43200000000000
        → contains night t ≡ false)
unfolding contains minutes_of
next_start_earliest_example = next_start_earliest night 43200000000000 night-IsWindow refl
