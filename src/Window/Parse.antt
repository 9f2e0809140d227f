-- ===== src/Window/Parse.antt =====
-- What the parsers of times and windows accept, and that they read what `formatHHMM` prints.
use tgvive.Window.{
  TimeError, minute_of_day, parse_hhmm, format_hhmm, RunWindow, window_of, no_window,
  parse_run_window, window_of_ends, normalize_dashes, split_window,
}
use tgvive.Prelude.Int.{ℤ}
use tgvive.Prelude.Results.{Result, ok, ◌>>=◌, err, or_err}
use tgvive.Text.{Text, trim_space, split_at, atoi, text_same, remove_char}
use tgvive.Prelude.{
  ℕ, ◌<◌, ◌≡◌, Bool, ◌&&◌, arith, true, eqb, Bool-cases, suc, refl, ltb, false, zero, [], inl, inr,
  subst, Option, some, none, if◌then◌else◌,
}

minute_of_day-lt : (h m : ℤ) (n : ℕ) → minute_of_day h m ≡ ok n → n < 1440
unfolding minute_of_day
minute_of_day-lt h m n e = ground arith

bind-lt :
    {A : Type 0} (r : Result TimeError A) (f : A → Result TimeError ℕ) (n : ℕ)
    → ((a : A) → f a ≡ ok n → n < 1440)
    → (r >>= f) ≡ ok n
    → n < 1440
bind-lt (ok a) f n h e = h a e
bind-lt (err x) f n h e = cc

-- A time that `parseHHMM` accepts is a minute of the day.
pub parse_hhmm-lt : (s : Text) (n : ℕ) → parse_hhmm s ≡ ok n → n < 1440
unfolding parse_hhmm
parse_hhmm-lt s n e = elim (Bool-cases (text_same (trim_space s) [])) [
  | inl q ↦ cc (rw q at e)
  | inr q ↦
      bind-lt (or_err (split_at b':' (trim_space s)) TimeError.invalid_hhmm) _ n
        (λ p. bind-lt (or_err (atoi p.0) TimeError.invalid_hour) _ n (λ h.
          bind-lt (or_err (atoi p.1) TimeError.invalid_minute) _ n (λ m. minute_of_day-lt h m n)))
        (rw q at e)
]

-- Every minute of the day is checked by evaluation.
reads_back : ℕ → Bool
reads_back m = elim (parse_hhmm (format_hhmm m)) [ ok n ↦ eqb n m | err e ↦ false ]

-- A test passes at every number under a bound.
passes : (ℕ → Bool) → ℕ → Bool
passes test zero = true
passes test (suc m) = if test m then passes test m else false

passes-at : (test : ℕ → Bool) (bound m : ℕ) → m < bound → passes test bound ≡ true → test m ≡ true
unfolding passes
passes-at test zero m l e = absurd (omega (arith, l))
passes-at test (suc bound) m l e =
    let earlier = passes-at test bound m in ground (arith, l, e, earlier)

reads_back_table : passes reads_back 1440 ≡ true
unfolding passes reads_back parse_hhmm format_hhmm trim_space split_at atoi
reads_back_table = refl

reads_back_sound : (m : ℕ) → reads_back m ≡ true → parse_hhmm (format_hhmm m) ≡ ok m
unfolding reads_back
reads_back_sound m h = ground arith

-- `parseHHMM` reads back what `formatHHMM` prints for each minute of the day.
pub parse_hhmm-format_hhmm : (m : ℕ) → m < 1440 → parse_hhmm (format_hhmm m) ≡ ok m
parse_hhmm-format_hhmm m h = reads_back_sound m (passes-at reads_back 1440 m h reads_back_table)

-- What a window that was parsed satisfies: its ends are minutes of the day, and its two marks say
-- how they compare.
pub record IsWindow (w : RunWindow) : Type 0 where
  pub start_in_day : w.start_min < 1440
  pub end_in_day : w.end_min < 1440
  pub all_day_iff : (w.enabled && w.all_day) ≡ (w.enabled && eqb w.start_min w.end_min)
  pub cross_iff : w.cross_midnight ≡ ltb w.end_min w.start_min

window_of-IsWindow : (a b : ℕ) → a < 1440 → b < 1440 → IsWindow (window_of a b)
unfolding window_of
window_of-IsWindow a b h k = ground arith

no_window-IsWindow : IsWindow no_window
no_window-IsWindow = ground arith

window_of_ends-IsWindow :
    (first second : Result TimeError ℕ) (w : RunWindow)
    → ((n : ℕ) → first ≡ ok n → n < 1440)
    → ((n : ℕ) → second ≡ ok n → n < 1440)
    → window_of_ends first second ≡ ok w
    → IsWindow w
unfolding window_of_ends
window_of_ends-IsWindow (ok a) (ok b) w h k e =
    subst IsWindow (cc) (window_of-IsWindow a b (h a refl) (k b refl))
window_of_ends-IsWindow (ok a) (err y) w h k e = cc
window_of_ends-IsWindow (err x) second w h k e = cc

split_window-IsWindow :
    (o : Option (Text × Text)) (w : RunWindow) → split_window o ≡ ok w → IsWindow w
unfolding split_window
split_window-IsWindow none w e = cc
split_window-IsWindow (some (a, b)) w e =
    window_of_ends-IsWindow (parse_hhmm a) (parse_hhmm b) w (parse_hhmm-lt a) (parse_hhmm-lt b) e

-- A window that `parseRunWindow` accepts has minutes of the day as ends, and marks that say how they
-- compare.
pub parse_run_window-IsWindow :
    (raw : Text) (w : RunWindow) → parse_run_window raw ≡ ok w → IsWindow w
unfolding parse_run_window
parse_run_window-IsWindow raw w e = elim (Bool-cases (text_same (trim_space raw) [])) [
  | inl q ↦ subst IsWindow (ground arith) no_window-IsWindow
  | inr q ↦
      split_window-IsWindow (split_at b'-' (normalize_dashes (remove_char b' ' (trim_space raw)))) w
        (rw q at e)
]
