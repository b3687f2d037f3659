-- ===== src/ClockBits.antt =====
-- System/ClockBits.h (under TCommEspTest/lib/ControlLibrary): square waves from a 50 ms timer.
pub mod Edges
use tcomm_tests.Common.{
  ℕ, ◌+◌, ◌%◌, Bool, true, false, not, ◌&&◌, List, [], ◌∷◌, leb, if◌then◌else◌,
}
use tcomm_tests.Timer.{Timer, loop, done}

-- One bit for each rate.
pub record Rates : Type 0 where
  pub clock_0_5hz : Bool
  pub clock_0_625hz : Bool
  pub clock_1hz : Bool
  pub clock_2hz : Bool
  pub clock_2_5hz : Bool
  pub clock_5hz : Bool
  pub clock_10hz : Bool

-- The anonymous `data` of `class ClockBits`: the bits, the count (`uint16_t`), the bits of the last
-- run (`prevClock_…`) and the rising edges (`edgeClock_…`).
pub record ClockBits : Type 0 where
  pub clock : Rates
  pub count : ℕ
  pub prev : Rates
  pub edge : Rates
  pub interval_timer : Timer

-- What `ClockEdge_0_5hz` to `ClockEdge_10hz`, and what `Clock_0_5hz` to `Clock_10hz`, return.
abbrev pub clock_edges : ClockBits → Rates
clock_edges c = c.edge

abbrev pub clock_bits : ClockBits → Rates
clock_bits c = c.clock

-- The bits that `Run` derives from the count; the fastest one is the toggled bit itself.
unfoldable pub rates_of : ℕ → Bool → Rates
rates_of count fastest = record {
  clock_0_5hz = leb 20 (count % 40);
  clock_0_625hz = leb 16 (count % 32);
  clock_1hz = leb 10 (count % 20);
  clock_2hz = leb 5 (count % 10);
  clock_2_5hz = leb 4 (count % 8);
  clock_5hz = leb 2 (count % 4);
  clock_10hz = fastest;
}

abbrev pub rises : Bool → Bool → Bool
rises now before = now && not before

unfoldable pub rising : Rates → Rates → Rates
rising now before = record {
  clock_0_5hz = rises now.clock_0_5hz before.clock_0_5hz;
  clock_0_625hz = rises now.clock_0_625hz before.clock_0_625hz;
  clock_1hz = rises now.clock_1hz before.clock_1hz;
  clock_2hz = rises now.clock_2hz before.clock_2hz;
  clock_2_5hz = rises now.clock_2_5hz before.clock_2_5hz;
  clock_5hz = rises now.clock_5hz before.clock_5hz;
  clock_10hz = rises now.clock_10hz before.clock_10hz;
}

abbrev pub differs : Bool → Bool → Bool
differs true b = not b
differs false b = b

-- `Run` behind the call of the timer, whose answer is `pulse`.
unfoldable pub tick : ClockBits → Bool → ClockBits
tick c pulse =
    let fastest = if pulse then not c.clock.clock_10hz else c.clock.clock_10hz in
    let count = if differs fastest c.prev.clock_10hz then (c.count + 1) % 160 else c.count in
    let clock = rates_of count fastest in
    record c { clock = clock; count = count; edge = rising clock c.prev; prev = clock }

-- `ClockBits::Run` at the time `now`.
unfoldable pub run : ClockBits → ℕ → ClockBits
unfolding tick
run c now = let t = loop c.interval_timer now in tick (record c { interval_timer = t }) (done t)

unfoldable pub run_all : ClockBits → List ℕ → ClockBits
run_all c [] = c
run_all c (now ∷ ts) = run_all (run c now) ts
