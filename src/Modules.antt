-- ===== src/Modules.antt =====
-- The modules of the board, TCommEspTest/src/Modules/CM/ControlModule.h and
-- TCommEspTest/src/Modules/EM/EquipmentModule.h: they echo test variables.
use tcomm_tests.Common.{ℕ, ◌≡◌, refl, true, if◌then◌else◌, Bool-cases, inl, inr}
use tcomm_tests.Timer.{Timer, loop, done}
use tcomm_tests.Object.{TemplateCommunicationObject, assign}

abbrev Word : Type 0
Word = TemplateCommunicationObject ℕ

-- `operator=` from another object takes its value only.
abbrev echo : Word → Word → Word
echo reply test = assign reply test.value

-- The members of `ControlModule`, those of its two parts together.
pub record ControlModule : Type 0 where
  pub module_active : Word
  pub reply_module_active : Word
  pub test_number : Word
  pub reply_test_number : Word

unfoldable pub run_control : ControlModule → ControlModule
run_control m = record m {
  reply_module_active = echo m.reply_module_active m.module_active;
  reply_test_number = echo m.reply_test_number m.test_number;
}

-- The members of `EquipmentModule`, those of its parts together.
pub record EquipmentModule : Type 0 where
  pub control_module : ControlModule
  pub test_bit : Word
  pub reply_test_bit : Word
  pub test_int : Word
  pub reply_test_int : Word
  pub test_float : Word
  pub reply_test_float : Word
  pub update_timer : Timer

-- `Run` at the time `now`.
unfoldable pub run_equipment : EquipmentModule → ℕ → EquipmentModule
unfolding run_control
run_equipment m now =
    let m' = record m { update_timer = loop m.update_timer now } in
    if done m'.update_timer
    then record m' {
      control_module = run_control m'.control_module;
      reply_test_bit = echo m'.reply_test_bit m'.test_bit;
      reply_test_int = echo m'.reply_test_int m'.test_int;
      reply_test_float = echo m'.reply_test_float m'.test_float;
    }
    else m'

-- Each reply is the value that was tested.
record Echoes (m : EquipmentModule) : Type 0 where
  active : m.control_module.reply_module_active.value ≡ m.control_module.module_active.value
  number : m.control_module.reply_test_number.value ≡ m.control_module.test_number.value
  bit : m.reply_test_bit.value ≡ m.test_bit.value
  int : m.reply_test_int.value ≡ m.test_int.value
  float : m.reply_test_float.value ≡ m.test_float.value

-- After a run in which the timer is done, every reply is the tested value.
run_equipment-Echoes :
    (m : EquipmentModule) (now : ℕ)
    → done (loop m.update_timer now) ≡ true
    → Echoes (run_equipment m now)
unfolding run_equipment
run_equipment-Echoes m now pulse =
    rw (pulse) (record { active = refl; number = refl; bit = refl; int = refl; float = refl })

-- Replies that are right stay so in every run.
Echoes-run_equipment : (m : EquipmentModule) (now : ℕ) → Echoes m → Echoes (run_equipment m now)
unfolding run_equipment
Echoes-run_equipment m now e = elim (Bool-cases (done (loop m.update_timer now))) [
  | inl pulse ↦ run_equipment-Echoes m now pulse
  | inr still ↦
      rw (still)
        (record { active = e.active; number = e.number; bit = e.bit; int = e.int; float = e.float })
]
