-- ===== src/Timer/Interval.antt =====
-- What an interval timer measures.
use tcomm_tests.Common.{ℕ, ◌-◌, ◌≤◌, ◌<◌, ◌≡◌, ◌⊎◌, true, false, List, [], ◌∷◌, ◌++◌, arith, ltb}
use tcomm_tests.Timer.{Timer, start, run, done, loop, run_all, loop_all}

run_all-going :
    (t : Timer) (t0 : ℕ) (ts : List ℕ) (now : ℕ)
    → t.start_timer ≡ true
    → t.p_start_timer ≡ true
    → t.start_time ≡ t0
    → done (run_all t (ts ++ now ∷ [])) ≡ ltb t.set_time (now - t0)
unfolding run_all run done
run_all-going t t0 [] now going before at = ground arith
run_all-going t t0 (x ∷ ts) now going before at =
    run_all-going (run t x) t0 ts now (ground arith) (ground arith) (ground arith)

-- A timer that is started and then run at a time `t0`, at any later times and at `now` is done
-- exactly if more than the set time lies between `t0` and `now`.
pub done-run_all :
    (t : Timer) (t0 now : ℕ) (ts : List ℕ)
    → t.p_start_timer ≡ false
    → done (run_all (start t) (t0 ∷ ts ++ now ∷ [])) ≡ ltb t.set_time (now - t0)
unfolding run_all run start
done-run_all t t0 now ts fresh =
    run_all-going (run (start t) t0) t0 ts now (ground arith) (ground arith) (ground arith)

-- No time is before the first argument.
abbrev pub AllFrom : ℕ → List ℕ → Type 0
AllFrom a [] = Unit {0}
AllFrom a (x ∷ xs) = (a ≤ x) × AllFrom a xs

-- Nothing was measured from before the time `a`.
record SinceTime (a : ℕ) (t : Timer) : Type 0 where
  pub settled : t.timer_done ≡ true → t.start_timer ≡ true
  pub same : t.p_start_timer ≡ t.start_timer
  pub later : t.start_timer ≡ true → (a ≤ t.start_time) ⊎ (t.timer_done ≡ true)

loop-SinceTime :
    (a now : ℕ) (t : Timer)
    → a ≤ now
    → SinceTime a t
    → (SinceTime a (loop t now)) × ((loop t now).set_time ≡ t.set_time)
unfolding loop
loop-SinceTime a now t h s = ground arith

loop-done_late :
    (a now : ℕ) (t : Timer)
    → a ≤ now
    → SinceTime a t
    → done (loop t now) ≡ true
    → t.set_time < now - a
unfolding loop
loop-done_late a now t h s d = ground arith

loop_all_late :
    (a now : ℕ) (t : Timer) (ts : List ℕ)
    → a ≤ now
    → AllFrom a ts
    → SinceTime a t
    → done (loop_all t (ts ++ now ∷ [])) ≡ true
    → t.set_time < now - a
unfolding loop_all
loop_all_late a now t [] h _ s d = loop-done_late a now t h s d
loop_all_late a now t (x ∷ ts) h (first, rest) s d =
    let (s', same) = loop-SinceTime a x t first s in
    omega (arith, loop_all_late a now (loop t x) ts h rest s' d, same)

loop-set_time : (t : Timer) (now : ℕ) → (loop t now).set_time ≡ t.set_time
unfolding loop
loop-set_time t now = ground arith

pulse-SinceTime : (t : Timer) (a : ℕ) → done (loop t a) ≡ true → SinceTime a (loop t a)
unfolding loop
pulse-SinceTime t a p = ground arith

-- The pulses of a looping timer are apart: if it is done at the time `a` and again after later
-- calls, the last of them at `now`, then more than the set time lies between `a` and `now`.
pub loop_pulses_apart :
    (t : Timer) (a now : ℕ) (ts : List ℕ)
    → done (loop t a) ≡ true
    → a ≤ now
    → AllFrom a ts
    → done (loop_all (loop t a) (ts ++ now ∷ [])) ≡ true
    → t.set_time < now - a
loop_pulses_apart t a now ts pulse h later again = omega (
  arith,
  loop_all_late a now (loop t a) ts h later (pulse-SinceTime t a pulse) again,
  loop-set_time t a,
)
