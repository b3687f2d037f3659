-- ===== src/ClockBits/Edges.antt =====
-- Every rate rises once in its period, and the edge shows for one run.
use tcomm_tests.Common.{
  ℕ, ◌+◌, ◌%◌, ◌<◌, ◌≡◌, refl, Bool, true, false, not, List, [], ◌∷◌, arith, ◌==◌, leb, zero, suc,
  ◌∙◌, ap,
}
use tcomm_tests.Timer.{Timer, loop, done}
use tcomm_tests.ClockBits.{ClockBits, Rates, rates_of, rises, rising, tick, run, run_all}

-- Between two runs: the bits are those of the count, and were remembered.
pub record IsSettled (c : ClockBits) : Type 0 where
  pub in_cycle : c.count < 160
  pub bits : c.clock ≡ rates_of c.count c.clock.clock_10hz
  pub remembered : c.prev ≡ c.clock

tick-IsSettled : (c : ClockBits) (pulse : Bool) → IsSettled c → IsSettled (tick c pulse)
unfolding tick rising rates_of
tick-IsSettled c pulse s = ground arith

-- Whatever the times of its runs, the clock stays settled: its count in its cycle, and its bits those
-- of the count and remembered.
run_all-IsSettled : (c : ClockBits) (ts : List ℕ) → IsSettled c → IsSettled (run_all c ts)
unfolding run_all run
run_all-IsSettled c [] s = s
run_all-IsSettled c (now ∷ ts) s =
    run_all-IsSettled (run c now) ts
      (tick-IsSettled _ (done (loop c.interval_timer now)) (keep c s))
  where
    keep : (c : ClockBits) {t : Timer} → IsSettled c → IsSettled (record c { interval_timer = t })
    keep c s = record { in_cycle = s.in_cycle; bits = s.bits; remembered = s.remembered }

-- The edges of the pulse that takes the count to `n`: half a period lies behind.
abbrev pub edges_at : ℕ → Bool → Rates
edges_at n fastest = record {
  clock_0_5hz = n % 40 == 20;
  clock_0_625hz = n % 32 == 16;
  clock_1hz = n % 20 == 10;
  clock_2hz = n % 10 == 5;
  clock_2_5hz = n % 8 == 4;
  clock_5hz = n % 4 == 2;
  clock_10hz = fastest;
}

abbrev pub no_edges : Rates
no_edges = record {
  clock_0_5hz = false;
  clock_0_625hz = false;
  clock_1hz = false;
  clock_2hz = false;
  clock_2_5hz = false;
  clock_5hz = false;
  clock_10hz = false;
}

-- A run without a pulse of the timer shows no edge, and moves no bit.
tick_idle :
    (c : ClockBits)
    → IsSettled c
    → ((tick c false).edge ≡ no_edges)
      × ((tick c false).count ≡ c.count)
      × ((tick c false).clock ≡ c.clock)
unfolding tick rising rates_of
tick_idle c s = ground arith

tick_count : (c : ClockBits) → IsSettled c → (tick c true).count ≡ (c.count + 1) % 160
unfolding tick
tick_count c s = ground arith

rise_40 :
    (n : ℕ) → n < 160 → rises (leb 20 ((n + 1) % 160 % 40)) (leb 20 (n % 40)) ≡ (n + 1) % 40 == 20
rise_40 n h = ground arith

rise_32 :
    (n : ℕ) → n < 160 → rises (leb 16 ((n + 1) % 160 % 32)) (leb 16 (n % 32)) ≡ (n + 1) % 32 == 16
rise_32 n h = ground arith

rise_20 :
    (n : ℕ) → n < 160 → rises (leb 10 ((n + 1) % 160 % 20)) (leb 10 (n % 20)) ≡ (n + 1) % 20 == 10
rise_20 n h = ground arith

rise_10 :
    (n : ℕ) → n < 160 → rises (leb 5 ((n + 1) % 160 % 10)) (leb 5 (n % 10)) ≡ (n + 1) % 10 == 5
rise_10 n h = ground arith

rise_8 : (n : ℕ) → n < 160 → rises (leb 4 ((n + 1) % 160 % 8)) (leb 4 (n % 8)) ≡ (n + 1) % 8 == 4
rise_8 n h = ground arith

rise_4 : (n : ℕ) → n < 160 → rises (leb 2 ((n + 1) % 160 % 4)) (leb 2 (n % 4)) ≡ (n + 1) % 4 == 2
rise_4 n h = ground arith

rises-not : (b : Bool) → rises (not b) b ≡ not b
rises-not true = refl
rises-not false = refl

rising-rates_of :
    (n : ℕ) (b : Bool)
    → n < 160
    → rising (rates_of ((n + 1) % 160) (not b)) (rates_of n b) ≡ edges_at (n + 1) (not b)
unfolding rising rates_of
rising-rates_of n b h = λ i. record {
  clock_0_5hz = rise_40 n h i;
  clock_0_625hz = rise_32 n h i;
  clock_1hz = rise_20 n h i;
  clock_2hz = rise_10 n h i;
  clock_2_5hz = rise_8 n h i;
  clock_5hz = rise_4 n h i;
  clock_10hz = rises-not b i;
}

tick-rising :
    (c : ClockBits)
    → IsSettled c
    → (tick c true).edge
      ≡ rising
          (rates_of ((c.count + 1) % 160) (not c.clock.clock_10hz))
          (rates_of c.count c.clock.clock_10hz)
unfolding tick
tick-rising c s = ground arith

tick_edges :
    (c : ClockBits)
    → IsSettled c
    → (tick c true).edge ≡ edges_at (c.count + 1) (not c.clock.clock_10hz)
tick_edges c s = tick-rising c s ∙ rising-rates_of c.count c.clock.clock_10hz s.in_cycle

-- `k` runs that each see a pulse of the timer.
pub pulses : ℕ → ClockBits → ClockBits
pulses zero c = c
pulses (suc k) c = tick (pulses k c) true

pulses_count :
    (k : ℕ) (c : ClockBits)
    → IsSettled c
    → IsSettled (pulses k c) × ((pulses k c).count ≡ (c.count + k) % 160)
unfolding pulses
pulses_count zero c s = (s, omega (arith, s.in_cycle))
pulses_count (suc k) c s =
    let (s', at) = pulses_count k c s in
    (tick-IsSettled (pulses k c) true s', omega (arith, tick_count (pulses k c) s', at))

wrap40 : (n : ℕ) → (n % 160 + 1) % 40 ≡ (n + 1) % 40
wrap40 n = omega arith

wrap32 : (n : ℕ) → (n % 160 + 1) % 32 ≡ (n + 1) % 32
wrap32 n = omega arith

wrap20 : (n : ℕ) → (n % 160 + 1) % 20 ≡ (n + 1) % 20
wrap20 n = omega arith

wrap10 : (n : ℕ) → (n % 160 + 1) % 10 ≡ (n + 1) % 10
wrap10 n = omega arith

wrap8 : (n : ℕ) → (n % 160 + 1) % 8 ≡ (n + 1) % 8
wrap8 n = omega arith

wrap4 : (n : ℕ) → (n % 160 + 1) % 4 ≡ (n + 1) % 4
wrap4 n = omega arith

edges_at-mod : (n : ℕ) (b : Bool) → edges_at (n % 160 + 1) b ≡ edges_at (n + 1) b
edges_at-mod n b = λ i. record {
  clock_0_5hz = ap (λ k. k == 20) (wrap40 n) i;
  clock_0_625hz = ap (λ k. k == 16) (wrap32 n) i;
  clock_1hz = ap (λ k. k == 10) (wrap20 n) i;
  clock_2hz = ap (λ k. k == 5) (wrap10 n) i;
  clock_2_5hz = ap (λ k. k == 4) (wrap8 n) i;
  clock_5hz = ap (λ k. k == 2) (wrap4 n) i;
  clock_10hz = b;
}

-- The pulse number `k + 1` from a settled clock on shows the edges of the count plus `k + 1`, as if
-- the count never wrapped: each rate rises once in its period, half a period into it. A run without
-- a pulse shows no edge, and leaves the bits and the count.
pub pulse_edges :
    (k : ℕ) (c : ClockBits)
    → IsSettled c
    → let d = pulses k c in
      ((pulses (suc k) c).edge ≡ edges_at (c.count + k + 1) (not d.clock.clock_10hz))
      × ((tick d false).edge ≡ no_edges)
      × ((tick d false).count ≡ d.count)
      × ((tick d false).clock ≡ d.clock)
unfolding pulses
pulse_edges k c s =
    let (s', at) = pulses_count k c s in
    let (low, same, still) = tick_idle (pulses k c) s' in
    (
      tick_edges (pulses k c) s'
          ∙ ap (λ n. edges_at (n + 1) (not (pulses k c).clock.clock_10hz)) at
          ∙ edges_at-mod (c.count + k) (not (pulses k c).clock.clock_10hz),
      low,
      same,
      still,
    )
