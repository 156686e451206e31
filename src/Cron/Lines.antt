-- ===== src/Cron/Lines.antt =====
-- Whole lines of Project7: from `check_time` of ssu_crontab.c to `check` of ssu_crond.c.
use linux_project.Base.{
  take, ◌<◌, ltb, inl, inr, Bool-cases, Option-cases, some_eq, ap, ℕ, zero, suc, ◌+◌, ◌≤◌, ◌≡◌,
  refl, Bool, true, false, not, Option, none, some, List, [], ◌∷◌, ◌++◌, ◌>>=◌, ◌==◌, if◌then◌else◌,
  has_char, same_string, next_token, arith, leb, length, c_string, map, length-append,
}
use linux_project.Base.Int.{ℤ, pos, atoi, eqb_ℤ}
use linux_project.Cron.{words, copied, comma, bar, slash, every, Position, Sections, sections}
use linux_project.Cron.Daemon.{
  Clock, clock, comparetime, timer, parts_loop, check, fits_buffers, dangling,
}
use linux_project.Cron.Daemon
use linux_project.Cron.Crontab.{grammar_check, all_sections, check_time, add, remo, remove}
use linux_project.Cron.Crontab
use linux_project.Cron.Due.{value, comparetime_lem}
use linux_project.Cron.Accepted.{Answers, accepted-timer}

-- The part is a number 0, in either program's reading.
pub record IsZero (input : List ℕ) : Type 0 where
  pub no_comma : has_char comma input ≡ false
  pub no_slash : has_char slash input ≡ false
  pub no_bar : has_char bar input ≡ false
  pub not_every : same_string input every ≡ false
  pub number : atoi input ≡ pos 0

zero-accepted :
    (input : List ℕ) → IsZero input → grammar_check Position.minposition input ≡ some true
unfolding grammar_check Crontab.token_check
zero-accepted input z = rw (z.no_comma, z.no_slash, z.no_bar, z.not_every, z.number) refl

zero_never :
    (now : List ℕ) (temp : ℤ) (fuel : ℕ) (input : List ℕ) (p : Position)
    → IsZero input
    → Daemon.token_check now temp fuel input p ≡ some false
unfolding Daemon.token_check timer
zero_never now temp fuel input p z =
    rw (z.no_comma, z.no_slash, z.no_bar, z.not_every, z.number) refl

-- A line for minute 0: ssu_crontab.c accepts its first section, and ssu_crond.c finds the line due at no
-- time at all.
pub minute_zero :
    (now : List ℕ) (temp : ℤ) (fuel : ℕ) (junk : Position → List ℕ) (line : List ℕ) (s : Sections)
    → sections junk line ≡ some s
    → IsZero s.min
    → (grammar_check Position.minposition s.min ≡ some true)
      × (check now temp fuel junk line ≡ some false)
unfolding check
minute_zero now temp fuel junk line s read z =
    (zero-accepted s.min z, rw (read, zero_never now temp fuel s.min Position.minposition z) refl)

-- One test after another, down to the first that fails.
then_test : Option Bool → Option Bool → Option Bool
then_test m k = m >>= λ x. if not x then some false else k

then_test-true : (m k : Option Bool) → then_test m k ≡ some true → (m ≡ some true) × (k ≡ some true)
unfolding then_test
then_test-true none k e = cc
then_test-true (some true) k e = (refl, e)
then_test-true (some false) k e = absurd (ground (arith, e))

then_test-Answers : (m k : Option Bool) → Answers m → Answers k → Answers (then_test m k)
unfolding then_test
then_test-Answers m k (true, e) (b, f) = (b, rw (e, f) refl)
then_test-Answers m k (false, e) (b, f) = (false, rw e refl)

-- A section that is no list, and fits into the arrays of `timer`.
pub record IsPlain (input : List ℕ) : Type 0 where
  pub no_comma : has_char comma input ≡ false
  pub fits : fits_buffers input ≡ true

-- All sections are such, and those that are copied have at most 7 bytes.
pub record ArePlain (s : Sections) : Type 0 where
  pub min : IsPlain s.min
  pub hour : IsPlain s.hour × (length s.hour < 8)
  pub day : IsPlain s.day × (length s.day < 8)
  pub month : IsPlain s.month × (length s.month < 8)
  pub week : IsPlain s.week × (length s.week < 8)

le-length-take : (n : ℕ) (s t : List ℕ) → n ≤ length s → n ≤ length (take n s ++ t)
le-length-take zero s t le = omega arith
le-length-take (suc n) [] t le = absurd (omega arith)
le-length-take (suc n) (c ∷ s) t le = omega (arith, le-length-take n s t (omega arith))

-- A copy of at most 7 bytes has nothing of what its array held before.
copied-short : (junk junk' s : List ℕ) → length (copied junk s) < 8 → copied junk' s ≡ copied junk s
unfolding copied
copied-short junk junk' s lt = elim (Bool-cases (ltb (length s) 8)) [
  | inl fits ↦ rw fits refl
  | inr long ↦
      let over = le-length-take 8 s (c_string junk) (ground (arith, long)) in
      absurd (omega (arith, over, rw long at lt))
]

sections-ArePlain :
    (junk junk' : Position → List ℕ) (line : List ℕ) (s : Sections)
    → sections junk line ≡ some s
    → ArePlain s
    → sections junk' line ≡ some s
unfolding sections
sections-ArePlain junk junk' line s read plain = elim (Option-cases (words line)) [
  | inl fewer ↦ absurd (ground (arith, rw fewer at read))
  | inr (w, at) ↦
      let same = some_eq (rw at at read) in
      let same_copy : (p : Position) (t : List ℕ)
          → length (copied (junk p) t) < 8
          → copied (junk' p) t ≡ copied (junk p) t =
        (λ p t. copied-short (junk p) (junk' p) t) in
      rw at (
        ap some (
          rw
            (
              same_copy Position.hourposition w.hour
                  (rw (ap (λ (q : Sections). q.hour) same) plain.hour.1),
              same_copy Position.dayposition w.day
                  (rw (ap (λ (q : Sections). q.day) same) plain.day.1),
              same_copy Position.monthposition w.month
                  (rw (ap (λ (q : Sections). q.month) same) plain.month.1),
              same_copy Position.weekposition w.week
                  (rw (ap (λ (q : Sections). q.week) same) plain.week.1),
            )
            same))
]

module _ (now : List ℕ) (temp : ℤ) (c : Clock) (known : clock now ≡ some c) (fuel : ℕ) where
  section-Answers :
      (p : Position) (input : List ℕ)
      → IsPlain input
      → grammar_check p input ≡ some true
      → Answers (Daemon.token_check now temp fuel input p)
  unfolding grammar_check Daemon.token_check
  section-Answers p input plain e =
      let (due, rest, run) =
        accepted-timer now temp c known p input [] (rw plain.no_comma at e) plain.fits in
      (due, rw (plain.no_comma, run) refl)

  -- A line that `check_time` of ssu_crontab.c accepts, at a time that reads as a time: `check` of
  -- ssu_crond.c ends with an answer for it, whatever the arrays of the two programs held before. The
  -- sections are no lists, those behind the first have at most 7 bytes, and a part with a slash has at most
  -- 5 bytes before it and one behind it.
  pub check_time-check :
      (junk junk' : Position → List ℕ) (line : List ℕ) (s : Sections)
      → sections junk line ≡ some s
      → ArePlain s
      → check_time junk line ≡ some true
      → (due : Bool) × (check now temp fuel junk' line ≡ some due)
  unfolding check check_time all_sections then_test
  check_time-check junk junk' line s read plain e =
      let read' = sections-ArePlain junk junk' line s read plain in
      let (min, rest) = then_test-true _ _ (rw (read, check_time) at e) in
      let (hour, rest') = then_test-true _ _ rest in
      let (day, rest'') = then_test-true _ _ rest' in
      let (month, week) = then_test-true _ _ rest'' in
      rw read' (
        then_test-Answers _ _ (section-Answers Position.minposition s.min plain.min min) (
          then_test-Answers _ _ (section-Answers Position.hourposition s.hour plain.hour.0 hour) (
            then_test-Answers _ _ (section-Answers Position.dayposition s.day plain.day.0 day) (
              then_test-Answers _ _
                (section-Answers Position.monthposition s.month plain.month.0 month)
                (section-Answers Position.weekposition s.week plain.week.0 week)))))

module _ (now : List ℕ) (temp : ℤ) (c : Clock) (known : clock now ≡ some c) (p : Position) where
  number_timer :
      (part saved : List ℕ)
      → has_char slash part ≡ false
      → has_char bar part ≡ false
      → same_string part every ≡ false
      → eqb_ℤ (atoi part) (pos 0) ≡ false
      → timer now temp part p saved ≡ some (eqb_ℤ (atoi part) (value temp c p), dangling)
  unfolding timer
  number_timer part saved no_slash no_bar not_every nonzero =
      rw (no_slash, no_bar, not_every, nonzero) (comparetime_lem now temp c known p (atoi part))

  list_lem :
      (fuel : ℕ) (part others : List ℕ) {r : Bool}
      → 1 ≤ fuel
      → timer now temp part p others ≡ some (r, dangling)
      → parts_loop now temp fuel part p others ≡ (if r then some true else none)
  unfolding parts_loop
  list_lem zero part others enough run = absurd (omega arith)
  list_lem (suc fuel) part others {r = true} enough run = rw run refl
  list_lem (suc fuel) part others {r = false} enough run = rw run refl

  -- A list that begins with a number other than 0, at a time that reads as a time: where the clock's
  -- number is that one, the section is due. Where it is not, there is no defined answer, since
  -- `strtok` goes on in the array of a call that is over, and not in the list.
  pub first_part_only :
      (fuel : ℕ) (input part others : List ℕ)
      → has_char comma input ≡ true
      → next_token comma input ≡ some (part, others)
      → has_char slash part ≡ false
      → has_char bar part ≡ false
      → same_string part every ≡ false
      → eqb_ℤ (atoi part) (pos 0) ≡ false
      → 1 ≤ fuel
      → Daemon.token_check now temp fuel input p
        ≡ (if eqb_ℤ (atoi part) (value temp c p) then some true else none)
  unfolding Daemon.token_check
  first_part_only fuel input part others list first no_slash no_bar not_every nonzero enough =
      rw (list, first)
        (list_lem fuel part others enough
          (number_timer part others no_slash no_bar not_every nonzero))

remo_last :
    (table : List (List ℕ)) (line : List ℕ) (num i : ℕ)
    → num ≡ i + length table
    → remo (table ++ (line ∷ [])) num i ≡ table
unfolding remo
remo_last [] line num i e = let here : (i == num) ≡ true = ground (arith, e) in rw here refl
remo_last (l ∷ ls) line num i e =
    let other : (i == num) ≡ false = ground (arith, e) in
    rw (other, remo_last ls line num (i + 1) (omega (arith, e))) refl

-- The line that was added last has the number of the lines before it, and its removal gives the table
-- back.
pub add-remove :
    (table : List (List ℕ)) (input : List ℕ)
    → remove (add table input) (length table) ≡ (true, table)
unfolding remove add
add-remove table input =
    let line = c_string (map Crontab.end_line input) in
    let fits : leb (length table) (length (table ++ (line ∷ []))) ≡ true =
      ground (arith, length-append table (line ∷ [])) in
    rw (fits, remo_last table line (length table) 0 (omega arith)) refl
