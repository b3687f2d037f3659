-- ===== src/Examples/Clocks.antt =====
-- Runs of System/Timer.h, System/ClockBits.h and System/ResourceIndexManager.h (under
-- TCommEspTest/lib/ControlLibrary).
use tcomm_tests.Common.{◌-◌, ◌<◌, ◌≡◌, refl, true, false, not, [], ◌∷◌, arith, ltb}
use tcomm_tests.Timer.{Timer, start, loop, done, run_all, loop_all}
use tcomm_tests.Timer.Interval.{done-run_all, loop_pulses_apart}
use tcomm_tests.ClockBits
use tcomm_tests.ClockBits.{ClockBits, Rates, tick}
use tcomm_tests.ClockBits.Edges.{IsSettled, edges_at, no_edges, pulses, pulse_edges}
use tcomm_tests.ResourceIndexManager.{
  Manager, create, lease_index, release_index, is_index_leased, set_of,
}
use tcomm_tests.Common.Maps.{find, insert}
use tcomm_tests.ResourceIndexManager.Sets.{member, add}
use tcomm_tests.ResourceIndexManager.Leases.{
  Leased, Released, lease_index-Leased, release_index-Released, create-Inv,
}

-- A timer of 50 microseconds that stands.
abbrev still : Timer
still = record {
  p_start_timer = false;
  set_time = 50;
  start_time = 0;
  current_time = 0;
  start_timer = false;
  timer_done = false;
  use_micros = true;
}

done-run_all_example :
    done (run_all (start still) (100 ∷ 120 ∷ 140 ∷ 151 ∷ [])) ≡ ltb 50 (151 - 100)
done-run_all_example = done-run_all still 100 151 (120 ∷ 140 ∷ []) refl

-- A looping timer that started at 100.
abbrev running : Timer
running = record still { p_start_timer = true; start_timer = true; start_time = 100 }

first_done : done (loop running 160) ≡ true
unfolding loop done
first_done = refl

second_done : done (loop_all (loop running 160) (170 ∷ 180 ∷ 300 ∷ [])) ≡ true
unfolding loop_all loop done
second_done = refl

loop_pulses_apart_example : 50 < 300 - 160
loop_pulses_apart_example =
    loop_pulses_apart running 160 300 (170 ∷ 180 ∷ []) first_done (omega arith)
      (omega arith, (omega arith, tt)) second_done

-- The bits at the start of a cycle.
abbrev low : Rates
low = record {
  clock_0_5hz = false;
  clock_0_625hz = false;
  clock_1hz = false;
  clock_2hz = false;
  clock_2_5hz = false;
  clock_5hz = false;
  clock_10hz = false;
}

abbrev clock : ClockBits
clock = record { clock = low; count = 0; prev = low; edge = low; interval_timer = still }

clock-IsSettled : IsSettled clock
unfolding ClockBits.rates_of
clock-IsSettled = record { in_cycle = omega arith; bits = refl; remembered = refl }

pulse_edges_example :
    let d = pulses 9 clock in
    ((pulses 10 clock).edge ≡ edges_at 10 (not d.clock.clock_10hz))
    × ((tick d false).edge ≡ no_edges)
    × ((tick d false).count ≡ d.count)
    × ((tick d false).clock ≡ d.clock)
pulse_edges_example = pulse_edges 9 clock clock-IsSettled

lease_index-Leased_example : Leased create 3 0 (lease_index create 3).1
unfolding lease_index create
lease_index-Leased_example = lease_index-Leased create 3 create-Inv (λ e. omega arith)

-- A manager whose category 3 holds the index 0.
abbrev one_lease : Manager
one_lease = (lease_index create 3).1

one_lease-holds : is_index_leased one_lease 3 0 ≡ true
unfolding is_index_leased lease_index create set_of insert find add member
one_lease-holds = refl

release_index-Released_example : Released one_lease 3 0 (release_index one_lease 3 0)
unfolding lease_index create
release_index-Released_example =
    release_index-Released one_lease 3 0
      (lease_index-Leased create 3 create-Inv (λ e. omega arith)).keeps one_lease-holds
