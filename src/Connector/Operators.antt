-- ===== src/Connector/Operators.antt =====
-- What the operators of a connector do: System/Connector.h (under TCommEspTest/lib/ControlLibrary).
use tcomm_tests.Common.{
  ℕ, ◌≡◌, refl, Bool, false, not, ◌&&◌, Option, none, some, ◌==◌, ==_refl, if◌then◌else◌,
}
use tcomm_tests.Connector.{
  Arithmetic, is_connected, value_of, assign_value, is_equal, is_unequal, is_less, is_greater_equal,
  compare_connectors, modify, prefix_increment, postfix_increment,
}

-- Both are connected to the same variable.
same : Option ℕ → Option ℕ → Bool
same (some p) (some q) = p == q
same none d = false
same (some p) none = false

module _ {A : Type 0} (ops : Arithmetic A) (uninitialised : A) where
  -- A value that is assigned through a connector is read through every connector of the same variable,
  -- no other variable changes, and through an unconnected one nothing is assigned.
  assign_value-value_of :
      (m : ℕ → A) (default_value v : A) (c d : Option ℕ)
      → value_of ops uninitialised (assign_value ops uninitialised m c v) default_value d
        ≡ (if same c d then v else value_of ops uninitialised m default_value d)
  unfolding value_of assign_value same
  assign_value-value_of m default_value v none none = refl
  assign_value-value_of m default_value v none (some q) = refl
  assign_value-value_of m default_value v (some p) none = refl
  assign_value-value_of m default_value v (some p) (some q) = refl

  -- Where both are connected and the type's own tests are each other's negations, so are those of
  -- connectors; where one is not connected, neither `<` nor `>=` holds, and `!=` does.
  compare_connectors_negates :
      (m : ℕ → A) (c d : Option ℕ)
      → ((v w : A) → ops.unequal v w ≡ not (ops.equal v w))
      → ((v w : A) → ops.greater_equal v w ≡ not (ops.less v w))
      → (is_unequal ops uninitialised m c d ≡ not (is_equal ops uninitialised m c d))
        × (is_greater_equal ops uninitialised m c d ≡ (
            if is_connected c && is_connected d
            then not (is_less ops uninitialised m c d)
            else false))
  unfolding is_unequal is_equal is_greater_equal is_less compare_connectors is_connected
  compare_connectors_negates m none none e l = (refl, refl)
  compare_connectors_negates m none (some q) e l = (refl, refl)
  compare_connectors_negates m (some p) none e l = (refl, refl)
  compare_connectors_negates m (some p) (some q) e l = (e (m p) (m q), l (m p) (m q))

  -- The operator `++c` takes one off the variable, and the result of `c++` reads the variable as it is
  -- after the increment, as it is another pointer to it.
  prefix_increment_decrements :
      (m : ℕ → A) (default_value : A) (p : ℕ)
      → let (m', c) = prefix_increment ops uninitialised m (some p) in
        let (m'', d) = postfix_increment ops uninitialised m (some p) in
        (m' p ≡ ops.decrement (m p))
        × (value_of ops uninitialised m' default_value c ≡ ops.decrement (m p))
        × (m'' p ≡ ops.increment (m p))
        × (value_of ops uninitialised m'' default_value d ≡ ops.increment (m p))
  unfolding prefix_increment postfix_increment modify value_of
  prefix_increment_decrements m default_value p = rw (==_refl p) (refl, refl, refl, refl)
