-- ===== src/Cron/Tests.antt =====
-- Runs of Project7 on a Friday in March, at a quarter past nine.
use linux_project.Base.{
  ℕ, ◌≡◌, ◌↔◌, refl, Bool, true, false, ◌&&◌, some, none, List, [], ◌∷◌, ◌++◌, codes, arith,
  next_token, c_string, digits_value,
}
use linux_project.Base.Int.{pos, atoi, signed_value, leb_ℤ, eqb_ℤ}
use linux_project.Cron.{Position, Sections, copied, words, sections}
use linux_project.Cron.Daemon.{
  named, Clock, clock, matches, comparetime, timer_loop, timer_range, bounds, timer_slash,
  fits_buffers, timer_bar, timer, parts_loop, check, divide, divide_all, start_turn, marked,
  at_minute, command_text,
}
use linux_project.Cron.Daemon
use linux_project.Cron.Crontab.{
  bar_check, slash_check, parts, all_checked, grammar_check, all_sections, check_time, add, remo,
  remove, add_line,
}
use linux_project.Cron.Crontab
use linux_project.Cron.Due.{value, Reached}
use linux_project.Cron.Ranges.{timer_range_lem, timer_between}
use linux_project.Cron.Lines.{IsZero, ArePlain, minute_zero, check_time-check, first_part_only}

abbrev now : List ℕ
now = codes "Fri Mar  6 09:15:00 2020\n"

abbrev clock_now : Clock
clock_now = record {
  week = codes "Fri";
  month = codes "Mar";
  day = codes "6";
  hour = codes "09";
  min = codes "15";
}

clock_now_at : clock now ≡ some clock_now
unfolding clock next_token
clock_now_at = refl

abbrev no_junk : Position → List ℕ
no_junk p = []

-- Every five minutes in the morning of the weekdays of March: the name of the month is looked up
-- as a day, and the line is due when the variable holds the 5.
abbrev five_line : List ℕ
five_line = codes "*/5 8-11 * 3 5 date"

abbrev five_sections : Sections
five_sections = record {
  min = codes "*/5";
  hour = codes "8-11";
  day = codes "*";
  month = codes "3";
  week = codes "5";
}

five_sections_at : sections no_junk five_line ≡ some five_sections
unfolding sections words copied next_token
five_sections_at = refl

abbrev midnight_line : List ℕ
midnight_line = codes "0 0 * * * date"

five_accepted : check_time no_junk five_line ≡ some true
unfolding check_time all_sections grammar_check Crontab.token_check slash_check bar_check sections
    words copied next_token atoi signed_value digits_value
five_accepted = refl

due_by_chance :
    (check now (pos 5) 9 no_junk five_line ≡ some true)
    × (check now (pos 0) 9 no_junk five_line ≡ some false)
unfolding check Daemon.token_check timer timer_slash fits_buffers timer_bar bounds timer_range
    timer_loop comparetime matches clock named parts_loop sections words copied next_token atoi
    signed_value digits_value
due_by_chance = (refl, refl)

wrong_lines :
    (check_time no_junk (codes "60 * * * * date") ≡ some false)
    × (check_time no_junk (codes "5-5 * * * * date") ≡ some false)
    × (check_time no_junk (codes "1,2,70 * * * * date") ≡ some false)
    × (check_time no_junk (codes "* * *") ≡ some false)
unfolding check_time all_sections grammar_check Crontab.token_check slash_check bar_check sections
    words copied next_token atoi signed_value digits_value parts all_checked
wrong_lines = (refl, refl, refl, refl)

one_line_runs :
    start_turn now
      (pos 5)
      9
      no_junk
      ((five_line ++ (0 ∷ 0 ∷ [])) ∷ (midnight_line ++ (0 ∷ [])) ∷ [])
    ≡ some (some (codes "date") ∷ none ∷ [])
unfolding start_turn divide_all divide at_minute marked command_text check Daemon.token_check timer
    timer_slash fits_buffers timer_bar bounds timer_range timer_loop comparetime matches clock named
    parts_loop sections words copied next_token atoi signed_value digits_value
one_line_runs = refl

-- Letters read as 0, the least minute.
letters_accepted : check_time no_junk (codes "x y * * z date") ≡ some true
unfolding check_time all_sections grammar_check Crontab.token_check slash_check bar_check sections
    words copied next_token atoi signed_value digits_value
letters_accepted = refl

add_line_refused : add_line no_junk [] (codes "70 * * * * date") ≡ some []
unfolding add_line add check_time all_sections grammar_check Crontab.token_check slash_check
    bar_check sections words copied next_token atoi signed_value digits_value c_string
add_line_refused = refl

timer_range_lem_example :
    (due : Bool) × (rest : List ℕ) × (timer_range now
        (pos 0)
        (pos 0)
        (pos 5)
        (pos 59)
        Position.minposition
        []
      ≡ some (due, rest))
    × ((due ≡ true) ↔ Reached 0 5 (pos 59) (value (pos 0) clock_now Position.minposition))
timer_range_lem_example =
    timer_range_lem now (pos 0) clock_now clock_now_at Position.minposition 0 5 (pos 59) []
      (omega arith)

ends_8_11 : bounds (codes "8-11") ≡ some (pos 8, pos 11)
unfolding bounds next_token atoi signed_value digits_value
ends_8_11 = refl

timer_between_example :
    (due : Bool) × (rest : List ℕ) × (timer now (pos 0) (codes "8-11") Position.hourposition []
      ≡ some (due, rest))
    × ((due ≡ true) ↔ (
        (leb_ℤ (pos 8) (value (pos 0) clock_now Position.hourposition)
          && leb_ℤ (value (pos 0) clock_now Position.hourposition) (pos 11))
        ≡ true))
timer_between_example =
    timer_between now (pos 0) clock_now clock_now_at Position.hourposition (codes "8-11") [] 8
      (pos 11) refl refl ends_8_11

abbrev other_junk : Position → List ℕ
other_junk p = codes "abc"

five_sections-ArePlain : ArePlain five_sections
unfolding fits_buffers next_token
five_sections-ArePlain = record {
  min = record { no_comma = refl; fits = refl };
  hour = (record { no_comma = refl; fits = refl }, omega arith);
  day = (record { no_comma = refl; fits = refl }, omega arith);
  month = (record { no_comma = refl; fits = refl }, omega arith);
  week = (record { no_comma = refl; fits = refl }, omega arith);
}

check_time-check_example : (due : Bool) × (check now (pos 0) 9 other_junk five_line ≡ some due)
check_time-check_example =
    check_time-check now (pos 0) clock_now clock_now_at 9 no_junk other_junk five_line five_sections
      five_sections_at five_sections-ArePlain five_accepted

-- Two digits do not fit into `stand`.
stand_overflows : timer now (pos 0) (codes "*/15") Position.minposition [] ≡ none
unfolding timer timer_slash fits_buffers next_token
stand_overflows = refl

abbrev midnight_sections : Sections
midnight_sections = record {
  min = codes "0";
  hour = codes "0";
  day = codes "*";
  month = codes "*";
  week = codes "*";
}

midnight_sections_at : sections no_junk midnight_line ≡ some midnight_sections
unfolding sections words copied next_token
midnight_sections_at = refl

nought-IsZero : IsZero (codes "0")
unfolding atoi signed_value digits_value
nought-IsZero = record {
  no_comma = refl;
  no_slash = refl;
  no_bar = refl;
  not_every = refl;
  number = refl;
}

minute_zero_example :
    (grammar_check Position.minposition midnight_sections.min ≡ some true)
    × (check (codes "Fri Mar  6 00:00:00 2020\n") (pos 0) 9 no_junk midnight_line ≡ some false)
minute_zero_example =
    minute_zero (codes "Fri Mar  6 00:00:00 2020\n") (pos 0) 9 no_junk midnight_line
      midnight_sections midnight_sections_at nought-IsZero

parts_of_list : next_token 44 (codes "10,15") ≡ some (codes "10", codes "15")
unfolding next_token
parts_of_list = refl

ten_not_zero : eqb_ℤ (atoi (codes "10")) (pos 0) ≡ false
unfolding atoi signed_value digits_value
ten_not_zero = refl

first_part_only_example :
    Daemon.token_check now (pos 0) 9 (codes "10,15") Position.minposition ≡ none
unfolding atoi signed_value digits_value
first_part_only_example =
    first_part_only now (pos 0) clock_now clock_now_at Position.minposition 9 (codes "10,15")
      (codes "10") (codes "15") refl parts_of_list refl refl refl ten_not_zero (omega arith)
