-- ===== src/Connector.antt =====
-- System/BaseConnector.h and System/Connector.h (under TCommEspTest/lib/ControlLibrary): a connector
-- is a pointer to a variable, or null. Variables lie in a store; the operators of their type are
-- arguments, and so is what an uninitialised variable holds.
pub mod Operators
use tcomm_tests.Common.{ℕ, Bool, true, false, Option, none, some, ◌==◌, if◌then◌else◌}

-- The operators of the type of the variables.
pub record Arithmetic (A : Type 0) : Type 0 where
  pub equal : A → A → Bool
  pub unequal : A → A → Bool
  pub less : A → A → Bool
  pub less_equal : A → A → Bool
  pub greater : A → A → Bool
  pub greater_equal : A → A → Bool
  pub minus : A → A → A
  pub plus : A → A → A
  pub times : A → A → A
  pub over : A → A → A
  pub increment : A → A
  pub decrement : A → A

abbrev pub Connector : Type 0
Connector = Option ℕ

-- The constructor, `Connect`, `Disconnect` and `IsConnected` of `BaseConnector`.
abbrev pub new_connector : Connector
new_connector = none

abbrev pub connect_to : Connector → ℕ → Connector
connect_to c p = some p

abbrev pub disconnect : Connector → Connector
disconnect c = none

unfoldable pub is_connected : Connector → Bool
is_connected none = false
is_connected (some p) = true

module _ {A : Type 0} (ops : Arithmetic A) (uninitialised : A) where
  abbrev pub Store : Type 0
  Store = ℕ → A

  abbrev pub save : Store → ℕ → A → Store
  save m p v q = if p == q then v else m q

  -- The conversion to the variable, where `default_value` is the static one of an unconnected one.
  unfoldable pub value_of : Store → A → Connector → A
  value_of m default_value none = default_value
  value_of m default_value (some p) = m p

  -- `operator=` from a value, and from a connector: `none` reads through a null pointer.
  unfoldable pub assign_value : Store → Connector → A → Store
  assign_value m none v = m
  assign_value m (some p) v = save m p v

  unfoldable pub assign_connector : Store → Connector → Connector → Option Store
  assign_connector m none d = some m
  assign_connector m (some p) none = none
  assign_connector m (some p) (some q) = some (save m p (m q))

  -- A comparison, with its answer where one is not connected.
  unfoldable pub compare_connectors : (A → A → Bool) → Bool → Store → Connector → Connector → Bool
  compare_connectors test otherwise m (some p) (some q) = test (m p) (m q)
  compare_connectors test otherwise m none d = otherwise
  compare_connectors test otherwise m (some p) none = otherwise

  unfoldable pub is_equal : Store → Connector → Connector → Bool
  unfolding compare_connectors
  is_equal = compare_connectors ops.equal false

  unfoldable pub is_unequal : Store → Connector → Connector → Bool
  unfolding compare_connectors
  is_unequal = compare_connectors ops.unequal true

  unfoldable pub is_less : Store → Connector → Connector → Bool
  unfolding compare_connectors
  is_less = compare_connectors ops.less false

  unfoldable pub is_less_equal : Store → Connector → Connector → Bool
  unfolding compare_connectors
  is_less_equal = compare_connectors ops.less_equal false

  unfoldable pub is_greater : Store → Connector → Connector → Bool
  unfolding compare_connectors
  is_greater = compare_connectors ops.greater false

  unfoldable pub is_greater_equal : Store → Connector → Connector → Bool
  unfolding compare_connectors
  is_greater_equal = compare_connectors ops.greater_equal false

  -- An arithmetic operator leaves its result uninitialised where one is not connected.
  unfoldable pub combine : (A → A → A) → Store → Connector → Connector → A
  combine f m (some p) (some q) = f (m p) (m q)
  combine f m none d = uninitialised
  combine f m (some p) none = uninitialised

  unfoldable pub subtract : Store → Connector → Connector → A
  unfolding combine
  subtract = combine ops.minus

  unfoldable pub add_up : Store → Connector → Connector → A
  unfolding combine
  add_up = combine ops.plus

  unfoldable pub multiply : Store → Connector → Connector → A
  unfolding combine
  multiply = combine ops.times

  unfoldable pub divide : Store → Connector → Connector → A
  unfolding combine
  divide = combine ops.over

  -- `++c` and `--c`, as they are written, and `c++` and `c--`, whose result is a copy of the pointer
  -- (that of `c--` is a connector of `char`, so that it is for `char` only).
  unfoldable pub modify : (A → A) → Store → Connector → Store × Connector
  modify f m none = (m, none)
  modify f m (some p) = (save m p (f (m p)), some p)

  unfoldable pub prefix_increment : Store → Connector → Store × Connector
  unfolding modify
  prefix_increment = modify ops.decrement

  unfoldable pub prefix_decrement : Store → Connector → Store × Connector
  unfolding modify
  prefix_decrement = modify ops.increment

  unfoldable pub postfix_increment : Store → Connector → Store × Connector
  unfolding modify
  postfix_increment = modify ops.increment

  unfoldable pub postfix_decrement : Store → Connector → Store × Connector
  unfolding modify
  postfix_decrement = modify ops.decrement
