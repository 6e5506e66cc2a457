-- ===== src/Data/Expression.antt =====
-- `Expression` and `Reference` of schemas/workflow_graph.py, and their evaluation in
-- services/graph_expressions.py. A raised exception is an outcome: an ExecutionError by its code, any
-- other exception of Python as `type_error`.
pub mod Finite
use agentops_workflow_platfo.Base.{
  ℕ, zero, suc, ◌+◌, ◌-◌, ◌*◌, String, str_eq, Bool, true, false, not, ◌&&◌, Option, none, some,
  List, [], ◌∷◌, if◌then◌else◌, is_some, ltb, leb, ◌==◌,
}
use agentops_workflow_platfo.Base.Float.{Float}
use agentops_workflow_platfo.Data.Json.{
  ℤ, pos, negsuc, Json, Items, Fields, null, boolean, integer, number, string, array, object, nil,
  cons, end, field, get, item, has_key,
}

pub data Key : Type 0 where
  name : String → Key
  index : ℕ → Key

-- `source` with its `node_id`
pub data Source : Type 0 where
  input : Source
  node : String → Source

-- `on_missing` with its `default`
pub data OnMissing : Type 0 where
  error : OnMissing
  null_value : OnMissing
  default : Json → OnMissing

pub record Reference : Type 0 where
  pub source : Source
  pub path : List Key
  pub on_missing : OnMissing

pub data Binary : Type 0 where
  eq ne gt gte lt lte and or add subtract multiply concat coalesce : Binary

-- The shapes that the validator `operands` accepts.
pub data Expression : Type 0 where
  literal : Json → Expression
  ref : Reference → Expression
  negation : Expression → Expression
  exists : Expression → Expression
  binary : Binary → Expression → Expression → Expression

pub data Failure : Type 0 where
  binding_missing expression_range type_error : Failure

pub data Outcome : Type 0 where
  value : Json → Outcome
  raised : Failure → Outcome

-- What Python's operators do on floats and on operands that the graph's validation refuses: sequences,
-- and the text order. `convert` is the conversion of an int, which may overflow.
pub record Python : Type 0 where
  pub finite : Float → Bool
  pub is_zero : Float → Bool
  pub convert : ℤ → Option Float
  pub float_arithmetic : Binary → Float → Float → Float
  pub float_order : Binary → Json → Json → Bool
  pub float_equal : Json → Json → Bool
  pub text_order : Binary → String → String → Bool
  pub append_text : String → String → String
  pub sequences : Binary → Json → Json → Outcome

abbrev pub step : Key → Json → Option Json
step (name k) (object fs) = get k fs
step (index i) (array xs) = item i xs
step _ _ = none

abbrev pub walk : List Key → Option Json → Option Json
walk [] v = v
walk (k ∷ ks) none = none
walk (k ∷ ks) (some v) = walk ks (step k v)

-- The value of `inputs`, or of `outputs.get(node_id, MISSING)`; MISSING is `none`.
abbrev pub source_value : Source → Json → (String → Option Json) → Option Json
source_value input inputs outputs = some inputs
source_value (node i) inputs outputs = outputs i

unfoldable pub resolve_reference : Reference → Json → (String → Option Json) → Option Json
resolve_reference r inputs outputs = walk r.path (source_value r.source inputs outputs)

abbrev pub on_missing_value : OnMissing → Outcome
on_missing_value error = raised binding_missing
on_missing_value null_value = value null
on_missing_value (default v) = value v

abbrev pub found_or : OnMissing → Option Json → Outcome
found_or missing none = on_missing_value missing
found_or missing (some v) = value v

abbrev pos_part : ℤ → ℕ
pos_part (pos n) = n
pos_part (negsuc n) = 0

abbrev neg_part : ℤ → ℕ
neg_part (pos n) = 0
neg_part (negsuc n) = suc n

-- a - b, as an integer.
abbrev sub_ℕ : ℕ → ℕ → ℤ
sub_ℕ a b = if leb b a then pos (a - b) else negsuc (b - a - 1)

abbrev int_less : ℤ → ℤ → Bool
int_less a b = ltb (pos_part a + neg_part b) (pos_part b + neg_part a)

abbrev int_equal : ℤ → ℤ → Bool
int_equal a b = pos_part a + neg_part b == pos_part b + neg_part a

-- The four comparisons; the other operators do not come here.
unfoldable pub int_order : Binary → ℤ → ℤ → Bool
int_order gt a b = int_less b a
int_order gte a b = not (int_less a b)
int_order lt a b = int_less a b
int_order _ a b = not (int_less b a)

-- `concat` and `add` are both Python's `+`.
unfoldable pub int_arithmetic : Binary → ℤ → ℤ → ℤ
int_arithmetic subtract a b = sub_ℕ (pos_part a + neg_part b) (neg_part a + pos_part b)
int_arithmetic multiply a b =
    sub_ℕ (pos_part a * pos_part b + neg_part a * neg_part b)
      (pos_part a * neg_part b + neg_part a * pos_part b)
int_arithmetic _ a b = sub_ℕ (pos_part a + pos_part b) (neg_part a + neg_part b)

-- A bool is an int in arithmetic and in comparisons.
abbrev pub as_number : Json → Json
as_number (boolean true) = integer (pos 1)
as_number (boolean false) = integer (pos 0)
as_number v = v

abbrev pub bool_equal : Bool → Bool → Bool
bool_equal true b = b
bool_equal false b = not b

abbrev pub keys_in : Fields → Fields → Bool
keys_in end gs = true
keys_in (field k v rest) gs = has_key k gs && keys_in rest gs

abbrev zero_int : ℤ → Bool
zero_int (pos zero) = true
zero_int _ = false

module _ (py : Python) where
  -- `not value` is the negation of this.
  unfoldable pub truthy : Json → Bool
  truthy null = false
  truthy (boolean b) = b
  truthy (integer n) = not (zero_int n)
  truthy (number x) = not (py.is_zero x)
  truthy (string s) = not (str_eq s "")
  truthy (array nil) = false
  truthy (array (cons _ _)) = true
  truthy (object end) = false
  truthy (object (field _ _ _)) = true

  unfoldable mutual
    pub equal : Json → Json → Bool
    equal null null = true
    equal (boolean a) (boolean b) = bool_equal a b
    equal (integer a) (integer b) = int_equal a b
    equal (integer a) (number y) = py.float_equal (integer a) (number y)
    equal (number x) (integer b) = py.float_equal (number x) (integer b)
    equal (number x) (number y) = py.float_equal (number x) (number y)
    equal (string s) (string t) = str_eq s t
    equal (array xs) (array ys) = equal_items xs ys
    equal (object fs) (object gs) = keys_in fs gs && keys_in gs fs && equal_fields fs gs
    equal _ _ = false

    pub equal_items : Items → Items → Bool
    equal_items nil nil = true
    equal_items (cons x xs) (cons y ys) = equal x y && equal_items xs ys
    equal_items _ _ = false

    pub equal_fields : Fields → Fields → Bool
    equal_fields end gs = true
    equal_fields (field k v rest) gs =
        elim (get k gs) [ none ↦ false | some w ↦ equal v w ] && equal_fields rest gs

  -- A float that is not finite is an error of the expression.
  abbrev pub check_finite : Outcome → Outcome
  check_finite (value (number x)) =
      if py.finite x then value (number x) else raised expression_range
  check_finite o = o

  abbrev pub mixed : Binary → Option Float → Option Float → Outcome
  mixed op (some x) (some y) = value (number (py.float_arithmetic op x y))
  mixed op _ _ = raised expression_range

  unfoldable pub compute : Binary → Json → Json → Outcome
  compute op (integer a) (integer b) = value (integer (int_arithmetic op a b))
  compute op (integer a) (number y) = mixed op (py.convert a) (some y)
  compute op (number x) (integer b) = mixed op (some x) (py.convert b)
  compute op (number x) (number y) = mixed op (some x) (some y)
  compute add (string s) (string t) = value (string (py.append_text s t))
  compute concat (string s) (string t) = value (string (py.append_text s t))
  compute op a b = py.sequences op a b

  unfoldable pub order : Binary → Json → Json → Outcome
  order op (integer a) (integer b) = value (boolean (int_order op a b))
  order op (integer a) (number y) = value (boolean (py.float_order op (integer a) (number y)))
  order op (number x) (integer b) = value (boolean (py.float_order op (number x) (integer b)))
  order op (number x) (number y) = value (boolean (py.float_order op (number x) (number y)))
  order op (string s) (string t) = value (boolean (py.text_order op s t))
  order op a b = py.sequences op a b

  unfoldable pub operate : Binary → Json → Json → Outcome
  unfolding compute order
  operate eq a b = value (boolean (equal a b))
  operate ne a b = value (boolean (not (equal a b)))
  operate and a b = value (boolean (truthy b))
  operate or a b = value (boolean (truthy b))
  operate coalesce a b = value b
  operate gt a b = order gt (as_number a) (as_number b)
  operate gte a b = order gte (as_number a) (as_number b)
  operate lt a b = order lt (as_number a) (as_number b)
  operate lte a b = order lte (as_number a) (as_number b)
  operate op a b = compute op (as_number a) (as_number b)

  -- The operators that may return before the second operand is evaluated.
  unfoldable pub early : Binary → Json → Option Json
  early and a = if truthy a then none else some (boolean false)
  early or a = if truthy a then some (boolean true) else none
  early coalesce null = none
  early coalesce a = some a
  early _ a = none

  abbrev pub then_operate : Binary → Json → Outcome → Outcome
  then_operate op first (raised e) = raised e
  then_operate op first (value second) = check_finite (operate op first second)

  abbrev pub or_second : Option Json → Outcome → Outcome
  or_second none o = o
  or_second (some v) o = value v

  abbrev pub combine : Binary → Outcome → Outcome → Outcome
  combine op (raised e) second = raised e
  combine op (value first) second = or_second (early op first) (then_operate op first second)

  abbrev pub negate : Outcome → Outcome
  negate (raised e) = raised e
  negate (value v) = value (boolean (not (truthy v)))

  -- `except ExecutionError` with a code other than `binding_missing` raises again.
  abbrev pub does_exist : Outcome → Outcome
  does_exist (value v) = value (boolean true)
  does_exist (raised binding_missing) = value (boolean false)
  does_exist (raised e) = raised e

  module _ (inputs : Json) (outputs : String → Option Json) where
    abbrev pub exists_of : Expression → Outcome → Outcome
    exists_of (ref r) o = value (boolean (is_some (resolve_reference r inputs outputs)))
    exists_of _ o = does_exist o

    unfoldable pub evaluate : Expression → Outcome
    unfolding resolve_reference operate early truthy
    evaluate (literal v) = value v
    evaluate (ref r) = found_or r.on_missing (resolve_reference r inputs outputs)
    evaluate (exists e) = exists_of e (evaluate e)
    evaluate (negation e) = negate (evaluate e)
    evaluate (binary op a b) = combine op (evaluate a) (evaluate b)
