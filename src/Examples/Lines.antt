-- ===== src/Examples/Lines.antt =====
-- Two communicators of TComm/src/Communicator.h over a line (under
-- TCommEspTest/lib/ControlLibrary/Communication).
use tcomm_tests.Common.{ℕ, zero, suc, ◌<◌, ◌≡◌, refl, [], ◌∷◌, some, arith, get_elem?, sym, ◌∙◌, ap}
use tcomm_tests.Common.Maps.{find}
use tcomm_tests.ByteSerializer.{CommunicationData, fresh}
use tcomm_tests.Object.Types.{int}
use tcomm_tests.Object.Virtual
use tcomm_tests.Object.Virtual.{word}
use tcomm_tests.Communicator.{Communicator, objects_of, pointer_at, update_comm_objects}
use tcomm_tests.Communicator.Devices.{IsAddressed, pointer_at-heap}
use tcomm_tests.SerialSubscriber.{across}
use tcomm_tests.SerialSubscriber.Frames.{at_port}
use tcomm_tests.SerialSubscriber.Places.{IsPlaced}
use tcomm_tests.SerialSubscriber.Copies.{AreTwins, Copies, across-Copies}
use tcomm_tests.Examples.Devices.{object, home, home-pointer, home-IsAddressed, no_edge}

abbrev away : Communicator
away = record home { heap = λ p. word int (object 0 0 p) }

away-IsAddressed : IsAddressed away
unfolding Virtual.address
away-IsAddressed = record {
  address = λ d i p h.
      let (one, same) = home-pointer d i p (sym (pointer_at-heap home away.heap d i) ∙ h) in
      ap some (λ n. (sym one n, same n));
}

home-IsPlaced : IsPlaced home
unfolding find
home-IsPlaced = record { keys = (refl, tt); addressed = home-IsAddressed }

below_two : (d i p : ℕ) → pointer_at home d i ≡ some p → p < 2
unfolding pointer_at objects_of find
below_two d i p h = ground (arith, below i)
  where
    below : (j : ℕ) → get_elem? (0 ∷ 1 ∷ []) j ≡ some p → p < 2
    below zero e = ground arith
    below (suc zero) e = ground arith
    below (suc (suc j)) e = absurd (cc e)

home-AreTwins : AreTwins home away
unfolding Virtual.get_type
home-AreTwins = record {
  sendable = λ d i p h. (omega arith, omega arith, omega (arith, below_two d i p h));
  alike = λ d i p q x y. refl;
}

silence : CommunicationData
silence = record { buffer = []; device_index = 0; data_size = 0; object_index = 0 }

across-Copies_example :
    let idle = fresh (λ i. 0) silence in
    (m' : ℕ → ℕ) × (r' : CommunicationData) × (b' : Communicator) × (across no_edge 5
        (at_port [] idle)
        home
        6
        (at_port [] idle)
        away
      ≡ some ((update_comm_objects home no_edge).0, at_port [] (fresh m' r'), b'))
    × Copies no_edge home away b'
across-Copies_example =
    across-Copies no_edge 5 [] (fresh (λ i. 0) silence) home 6 (λ i. 0) silence away refl
      home-IsPlaced away-IsAddressed home-AreTwins
