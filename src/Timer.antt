-- ===== src/Timer.antt =====
-- System/Timer.h (under TCommEspTest/lib/ControlLibrary), in its branch for a monotone clock in
-- microseconds, whose reading is the argument `now` of a run.
pub mod Interval
use tcomm_tests.Common.{
  ℕ, ◌-◌, ◌*◌, Bool, true, false, not, ◌&&◌, List, [], ◌∷◌, ltb, if◌then◌else◌,
}

-- The members of `class Timer`; times are in microseconds.
pub record Timer : Type 0 where
  pub p_start_timer : Bool
  pub set_time : ℕ
  pub start_time : ℕ
  pub current_time : ℕ
  pub start_timer : Bool
  pub timer_done : Bool
  pub use_micros : Bool

-- The constructor, over the members that it leaves as they are in memory.
unfoldable pub create : Timer → ℕ → Timer
create t input_time = record t {
  set_time = input_time * 1000;
  start_timer = false;
  use_micros = false;
}

unfoldable pub set_interval : Timer → ℕ → Timer
set_interval t input_time = record t {
  set_time = if t.use_micros then input_time else input_time * 1000;
}

unfoldable pub set_micros : Timer → Timer
set_micros t = record t { use_micros = true }

unfoldable pub set_millis : Timer → Timer
set_millis t = record t { use_micros = false }

unfoldable pub start : Timer → Timer
start t = record t { start_timer = true }

unfoldable pub stop : Timer → Timer
stop t = record t { start_timer = false }

abbrev pub begin_time : Timer → ℕ → ℕ
begin_time t now = if t.p_start_timer then t.start_time else now

-- `Run`: reads the clock only while the timer is started.
unfoldable pub run : Timer → ℕ → Timer
run t now = record t {
  current_time = if t.start_timer then now else t.current_time;
  start_time = if t.start_timer then begin_time t now else t.start_time;
  timer_done = t.start_timer && ltb t.set_time (now - begin_time t now);
  p_start_timer = t.start_timer;
}

unfoldable pub started : Timer → Bool
started t = t.start_timer

unfoldable pub done : Timer → Bool
done t = t.timer_done

-- `Loop`: start a stopped timer, stop one that is done, and run.
unfoldable pub loop : Timer → ℕ → Timer
unfolding start stop run started done
loop t now = run (if not (started t) then start t else if done t then stop t else t) now

-- The same call at each of the times, in order.
unfoldable pub run_all : Timer → List ℕ → Timer
run_all t [] = t
run_all t (now ∷ ts) = run_all (run t now) ts

unfoldable pub loop_all : Timer → List ℕ → Timer
loop_all t [] = t
loop_all t (now ∷ ts) = loop_all (loop t now) ts
