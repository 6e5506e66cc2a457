-- ===== src/Data/Typing/Operations.antt =====
-- Operations on operands of their static types: they give a value of the result's type, unless an
-- operand is missing or a number is out of range.
use mathlib.Core.Bool.{false≢true}
use agentops_workflow_platfo.Base.{
  both, String, ◌≡◌, refl, sym, ap, ◌∙◌, Bool, true, false, ◌||◌, Option, none, some, all, arith,
  Bool-cases, Option-cases, inl, inr, if◌then◌else◌, is_some,
}
use agentops_workflow_platfo.Base.Float.{Float}
use agentops_workflow_platfo.Data.Json.{
  ℤ, Json, null, boolean, integer, number, string, array, object,
}
use agentops_workflow_platfo.Data.Schema.{
  DataType, object_type, array_type, string_type, integer_type, number_type, boolean_type,
  null_type, same_type, DataSchema, schema, has, types, validate_data,
}
use agentops_workflow_platfo.Data.Expression.{
  Binary, Outcome, value, raised, binding_missing, expression_range, Python, check_finite, mixed,
  compute, order, operate, early, combine, as_number,
}
use agentops_workflow_platfo.Data.Typing.{plain, only, is_numeric, numeric}
use agentops_workflow_platfo.Data.Typing.Shapes.{all-has}

-- A value with a property, or one of the two errors that types do not exclude.
pub data Safe (P : Json → Type 0) : Outcome → Type 0 where
  returns : {v : Json} → P v → Safe P (value v)
  missing : Safe P (raised binding_missing)
  range : Safe P (raised expression_range)

pub data IsNumber (finite : Float → Bool) : Json → Type 0 where
  an_integer : (n : ℤ) → IsNumber finite (integer n)
  a_float : (x : Float) → finite x ≡ true → IsNumber finite (number x)

module _ (finite : Float → Bool) where
  abbrev Valid : DataSchema → Json → Type 0
  Valid s v = validate_data finite v s ≡ true

  pub numeric-IsNumber :
      (v : Json) (s : DataSchema) → numeric (types s) ≡ true → Valid s v → IsNumber finite v
  unfolding validate_data
  numeric-IsNumber null (schema ts ps r it) n h =
      absurd (false≢true (all-has is_numeric null_type ts n h))
  numeric-IsNumber (boolean b) (schema ts ps r it) n h =
      absurd (false≢true (all-has is_numeric boolean_type ts n h))
  numeric-IsNumber (integer i) s n h = an_integer i
  numeric-IsNumber (number x) (schema ts ps r it) n h =
      a_float x (both {a = has number_type ts} h).1
  numeric-IsNumber (string t) (schema ts ps r it) n h =
      absurd (false≢true (all-has is_numeric string_type ts n h))
  numeric-IsNumber (array xs) (schema ts ps r it) n h =
      absurd (false≢true (all-has is_numeric array_type ts n (both {a = has array_type ts} h).0))
  numeric-IsNumber (object fs) (schema ts ps r it) n h =
      absurd (false≢true (all-has is_numeric object_type ts n (both (both h).0).0))

  -- A value of a schema with one data type is of that data type.
  pub only-kind :
      (v : Json) (s : DataSchema) (t : DataType)
      → only t (types s) ≡ true
      → Valid s v
      → same_type t object_type
          || same_type t array_type
          || same_type t integer_type
          || same_type t number_type
        ≡ false
      → Valid (plain t) v
  unfolding validate_data
  only-kind null (schema ts ps r it) t o h k =
      ground (arith, all-has (same_type t) null_type ts (both {a = all (same_type t) ts} o).0 h)
  only-kind (boolean b) (schema ts ps r it) t o h k =
      ground (arith, all-has (same_type t) boolean_type ts (both {a = all (same_type t) ts} o).0 h)
  only-kind (integer i) (schema ts ps r it) t o h k = ground (
    arith,
    all-has (same_type t) integer_type ts (both {a = all (same_type t) ts} o).0,
    all-has (same_type t) number_type ts (both {a = all (same_type t) ts} o).0,
  )
  only-kind (number x) (schema ts ps r it) t o h k = ground (
    arith,
    all-has (same_type t) number_type ts (both {a = all (same_type t) ts} o).0
        (both {a = has number_type ts} h).0,
  )
  only-kind (string x) (schema ts ps r it) t o h k =
      ground (arith, all-has (same_type t) string_type ts (both {a = all (same_type t) ts} o).0 h)
  only-kind (array xs) (schema ts ps r it) t o h k = ground (
    arith,
    all-has (same_type t) array_type ts (both {a = all (same_type t) ts} o).0
        (both {a = has array_type ts} h).0,
  )
  only-kind (object xs) (schema ts ps r it) t o h k = ground (
    arith,
    all-has (same_type t) object_type ts (both {a = all (same_type t) ts} o).0 (both (both h).0).0,
  )

  pub boolean-inv : (v : Json) → Valid (plain boolean_type) v → (b : Bool) × (v ≡ boolean b)
  unfolding validate_data
  boolean-inv (boolean b) h = (b, refl)
  boolean-inv null h = absurd (false≢true h)
  boolean-inv (integer i) h = absurd (false≢true h)
  boolean-inv (number x) h = absurd (false≢true h)
  boolean-inv (string s) h = absurd (false≢true h)
  boolean-inv (array xs) h = absurd (false≢true h)
  boolean-inv (object fs) h = absurd (false≢true h)

  pub string-inv : (v : Json) → Valid (plain string_type) v → (s : String) × (v ≡ string s)
  unfolding validate_data
  string-inv (string s) h = (s, refl)
  string-inv null h = absurd (false≢true h)
  string-inv (integer i) h = absurd (false≢true h)
  string-inv (number x) h = absurd (false≢true h)
  string-inv (boolean b) h = absurd (false≢true h)
  string-inv (array xs) h = absurd (false≢true h)
  string-inv (object fs) h = absurd (false≢true h)

  pub null-inv : (v : Json) → Valid (plain null_type) v → v ≡ null
  unfolding validate_data
  null-inv null h = refl
  null-inv (string s) h = absurd (false≢true h)
  null-inv (integer i) h = absurd (false≢true h)
  null-inv (number x) h = absurd (false≢true h)
  null-inv (boolean b) h = absurd (false≢true h)
  null-inv (array xs) h = absurd (false≢true h)
  null-inv (object fs) h = absurd (false≢true h)

module _ (py : Python) where
  abbrev pub Is : DataSchema → Json → Type 0
  Is s v = validate_data py.finite v s ≡ true

  number-Safe :
      (x : Float) (t : DataType)
      → t ≡ number_type
      → Safe (Is (plain t)) (check_finite py (value (number x)))
  unfolding validate_data
  number-Safe x t is_number = elim (Bool-cases (py.finite x)) [
    | inl f ↦ rw f (returns (rw is_number (ground (arith, f))))
    | inr n ↦ rw n range
  ]

  integer-Safe :
      (n : ℤ) (test : Bool) → Is (plain (if test then number_type else integer_type)) (integer n)
  unfolding validate_data
  integer-Safe n true = refl
  integer-Safe n false = refl

  mixed-Safe :
      (op : Binary) (a b : Option Float) (t : DataType)
      → t ≡ number_type
      → Safe (Is (plain t)) (check_finite py (mixed py op a b))
  mixed-Safe op (some x) (some y) t e = number-Safe (py.float_arithmetic op x y) t e
  mixed-Safe op none b t e = range
  mixed-Safe op (some x) none t e = range

  float-type : (x : Float) (s : DataSchema) → Is s (number x) → has number_type (types s) ≡ true
  unfolding validate_data
  float-type x (schema ts ps r it) h = (both {a = has number_type ts} h).0

  abbrev pub result_type : DataSchema → DataSchema → DataType
  result_type s t =
      if has number_type (types s) || has number_type (types t) then number_type else integer_type

  pub arithmetic-Safe :
      (op : Binary) (s t : DataSchema) (v w : Json)
      → IsNumber py.finite v
      → IsNumber py.finite w
      → Is s v
      → Is t w
      → Safe
          (Is (plain (result_type s t)))
          (check_finite py (compute py op (as_number v) (as_number w)))
  unfolding compute
  arithmetic-Safe op s t _ _ (an_integer a) (an_integer b) h k =
      returns (integer-Safe _ (has number_type (types s) || has number_type (types t)))
  arithmetic-Safe op s t _ _ (an_integer a) (a_float y f) h k =
      mixed-Safe op (py.convert a) (some y) _ (ground (arith, float-type y t k))
  arithmetic-Safe op s t _ _ (a_float x f) (an_integer b) h k =
      mixed-Safe op (some x) (py.convert b) _ (ground (arith, float-type x s h))
  arithmetic-Safe op s t _ _ (a_float x f) (a_float y g) h k =
      mixed-Safe op (some x) (some y) _ (ground (arith, float-type x s h))

  pub truth : (b : Bool) → Is (plain boolean_type) (boolean b)
  unfolding validate_data
  truth b = refl

  pub order-Safe :
      (op : Binary) (v w : Json)
      → IsNumber py.finite v
      → IsNumber py.finite w
      → Safe (Is (plain boolean_type)) (check_finite py (order py op (as_number v) (as_number w)))
  unfolding order
  order-Safe op _ _ (an_integer a) (an_integer b) = returns (truth _)
  order-Safe op _ _ (an_integer a) (a_float y g) = returns (truth _)
  order-Safe op _ _ (a_float x f) (an_integer b) = returns (truth _)
  order-Safe op _ _ (a_float x f) (a_float y g) = returns (truth _)

  -- The rule for an operator that may return before its second operand is looked at.
  pub lazy-Safe :
      {P Q R : Json → Type 0} (op : Binary) {a b : Outcome}
      → Safe P a
      → Safe Q b
      → ((v : Json) → P v → (u : Json) → early py op v ≡ some u → R u)
      → ((v w : Json)
          → P v
          → early py op v ≡ none
          → Q w
          → Safe R (check_finite py (operate py op v w)))
      → Safe R (combine py op a b)
  lazy-Safe op missing b first second = missing
  lazy-Safe op range b first second = range
  lazy-Safe op (returns {v} h) missing first second = elim (Option-cases (early py op v)) [
    | inr (u, e) ↦ rw e (returns (first v h u e))
    | inl e ↦ rw e missing
  ]
  lazy-Safe op (returns {v} h) range first second = elim (Option-cases (early py op v)) [
    | inr (u, e) ↦ rw e (returns (first v h u e))
    | inl e ↦ rw e range
  ]
  lazy-Safe op (returns {v} h) (returns {v = w} j) first second =
      elim (Option-cases (early py op v)) [
        | inr (u, e) ↦ rw e (returns (first v h u e))
        | inl e ↦ rw e (second v w h e j)
      ]

  -- The rule for one that evaluates both operands.
  pub strict-Safe :
      {P Q R : Json → Type 0} (op : Binary) {a b : Outcome}
      → ((v : Json) → early py op v ≡ none)
      → Safe P a
      → Safe Q b
      → ((v w : Json) → P v → Q w → Safe R (check_finite py (operate py op v w)))
      → Safe R (combine py op a b)
  strict-Safe op e a b k =
      lazy-Safe op a b (λ v h u q. absurd (false≢true (ap is_some (sym (e v) ∙ q))))
        (λ v w h _ j. k v w h j)

  -- A valid value is not an infinite number.
  pub valid-Safe :
      (w : Json) (s : DataSchema) (P : Json → Type 0)
      → Is s w
      → P w
      → Safe P (check_finite py (value w))
  unfolding validate_data
  valid-Safe (number x) (schema ts ps r it) P h k =
      rw (both {a = has number_type ts} h).1 (returns k)
  valid-Safe null s P h k = returns k
  valid-Safe (boolean b) s P h k = returns k
  valid-Safe (integer n) s P h k = returns k
  valid-Safe (string t) s P h k = returns k
  valid-Safe (array xs) s P h k = returns k
  valid-Safe (object fs) s P h k = returns k
