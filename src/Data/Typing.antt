-- ===== src/Data/Typing.antt =====
-- The static types of expressions: `literal_schema`, `nullable`, `expression_schema` and `bindings` of
-- services/graph_validation.py. A ValidationError is the answer `none` or `false`.
pub mod Literals
mod Shapes
mod Paths
pub mod Operations
mod Operators
pub mod Sound
use agentops_workflow_platfo.Base.{
  ℕ, suc, String, Bool, true, false, not, ◌&&◌, ◌||◌, Option, none, some, List, [], ◌∷◌, all,
  if◌then◌else◌, leb, is_some,
}
use agentops_workflow_platfo.Base.Float.{Float}
use agentops_workflow_platfo.Data.Json.{
  Json, Items, Fields, null, boolean, integer, number, string, array, object, nil, cons, end, field,
}
use agentops_workflow_platfo.Data.Schema.{
  DataType, object_type, array_type, string_type, integer_type, number_type, boolean_type,
  null_type, same_type, DataSchema, Properties, ItemSchema, schema, no_properties, property,
  no_items, items_of, has, types, property_at, listed, validate_data, validate_items,
}
use agentops_workflow_platfo.Data.Compatible.{compatible}
use agentops_workflow_platfo.Data.Expression.{
  Key, name, index, Source, input, node, OnMissing, error, null_value, default, Reference, Binary,
  eq, ne, gt, gte, lt, lte, and, or, add, subtract, multiply, concat, coalesce, Expression, literal,
  ref, negation, exists, binary,
}

-- DataSchema(type=t)
abbrev pub plain : DataType → DataSchema
plain t = schema (t ∷ []) no_properties [] no_items

abbrev pub array_of : DataSchema → DataSchema
array_of s = schema (array_type ∷ []) no_properties [] (items_of s)

-- list(value)
abbrev pub names : Fields → List String
names end = []
names (field k v rest) = k ∷ names rest

abbrev pub size : Fields → ℕ
size end = 0
size (field k v rest) = suc (size rest)

-- A DataSchema has a hundred properties at most.
abbrev pub object_of : Fields → Option Properties → Option DataSchema
object_of fs none = none
object_of fs (some ps) =
    if leb (size fs) 100 then some (schema (object_type ∷ []) ps (names fs) no_items) else none

abbrev pub add_property : String → Option DataSchema → Option Properties → Option Properties
add_property k none ps = none
add_property k (some s) none = none
add_property k (some s) (some ps) = some (property k s ps)

module _ (finite : Float → Bool) where
  abbrev pub array_if : Items → Option DataSchema → Option DataSchema
  array_if xs none = none
  array_if xs (some s) = if validate_items finite xs (items_of s) then some (array_of s) else none

  unfoldable mutual
    unfolding validate_data

    pub literal_schema : Json → Option DataSchema
    literal_schema null = some (plain null_type)
    literal_schema (boolean b) = some (plain boolean_type)
    literal_schema (integer n) = some (plain integer_type)
    literal_schema (number x) = some (plain number_type)
    literal_schema (string s) = some (plain string_type)
    literal_schema (array xs) = array_if xs (first_schema xs)
    literal_schema (object fs) = object_of fs (literal_properties fs)

    pub first_schema : Items → Option DataSchema
    first_schema nil = some (plain null_type)
    first_schema (cons x xs) = literal_schema x

    pub literal_properties : Fields → Option Properties
    literal_properties end = some no_properties
    literal_properties (field k v rest) =
        add_property k (literal_schema v) (literal_properties rest)

-- types | {"null"}
abbrev pub with_null : List DataType → List DataType
with_null ts = if has null_type ts then ts else null_type ∷ ts

abbrev pub nullable : DataSchema → DataSchema
nullable (schema ts ps required it) = schema (with_null ts) ps required it

-- kinds == {t}
abbrev pub only : DataType → List DataType → Bool
only t ts = all (same_type t) ts && has t ts

abbrev pub is_numeric : DataType → Bool
is_numeric t = same_type t integer_type || same_type t number_type

-- kinds <= {"integer", "number"}
abbrev pub numeric : List DataType → Bool
numeric ts = all is_numeric ts

-- next(iter(types - {"null"}))
abbrev pub first_data : List DataType → Option DataType
first_data [] = none
first_data (t ∷ ts) = let rest = first_data ts in if same_type t null_type then rest else some t

abbrev pub retyped : DataSchema → Option DataType → Option DataSchema
retyped s none = none
retyped (schema ts ps required it) (some t) = some (schema (t ∷ []) ps required it)

abbrev pub given : Bool → DataSchema → Option DataSchema
given test s = if test then some s else none

abbrev pub coalesced : Option DataSchema → DataSchema → Option DataSchema
coalesced none second = none
coalesced (some first) second =
    if compatible second (nullable first)
    then some (if has null_type (types second) then nullable first else first)
    else none

-- The schema of an operation with two operands.
unfoldable pub binary_schema : Binary → DataSchema → DataSchema → Option DataSchema
unfolding compatible
binary_schema eq s t = some (plain boolean_type)
binary_schema ne s t = some (plain boolean_type)
binary_schema and s t =
    given (only boolean_type (types s) && only boolean_type (types t)) (plain boolean_type)
binary_schema or s t =
    given (only boolean_type (types s) && only boolean_type (types t)) (plain boolean_type)
binary_schema concat s t =
    given (only string_type (types s) && only string_type (types t)) (plain string_type)
binary_schema add s t = given (numeric (types s) && numeric (types t)) (
    plain (
      if has number_type (types s) || has number_type (types t) then number_type else integer_type))
binary_schema subtract s t = given (numeric (types s) && numeric (types t)) (
    plain (
      if has number_type (types s) || has number_type (types t) then number_type else integer_type))
binary_schema multiply s t = given (numeric (types s) && numeric (types t)) (
    plain (
      if has number_type (types s) || has number_type (types t) then number_type else integer_type))
binary_schema coalesce s t =
    if only null_type (types s) then some t else coalesced (retyped s (first_data (types s))) t
binary_schema _ s t =
    given
      ((numeric (types s) && numeric (types t))
        || (only string_type (types s) && only string_type (types t)))
      (plain boolean_type)

-- What an expression may refer to: the producers' output schemas, and whether a producer precedes the
-- consumer (every node does, where the consumer is None).
pub record Scope : Type 0 where
  pub input_schema : DataSchema
  pub producer : String → Option DataSchema
  pub precedes : String → Bool

abbrev pub source_schema : Scope → Source → Option DataSchema
source_schema scope input = some scope.input_schema
source_schema scope (node i) = if scope.precedes i then scope.producer i else none

abbrev pub item_schema : ItemSchema → Option DataSchema
item_schema no_items = none
item_schema (items_of s) = some s

abbrev pub step_schema : Key → DataSchema → Option DataSchema
step_schema (name k) (schema ts ps required it) =
    if has object_type ts then property_at k ps else none
step_schema (index i) (schema ts ps required it) =
    if has array_type ts then item_schema it else none

abbrev pub walk_schema : List Key → Option DataSchema → Option DataSchema
walk_schema [] s = s
walk_schema (k ∷ ks) none = none
walk_schema (k ∷ ks) (some s) = walk_schema ks (step_schema k s)

module _ (finite : Float → Bool) (scope : Scope) where
  abbrev pub missing_schema : OnMissing → Option DataSchema → Option DataSchema
  missing_schema missing none = none
  missing_schema error (some s) = some s
  missing_schema null_value (some s) = some (nullable s)
  missing_schema (default v) (some s) = given (validate_data finite v s) s

  abbrev pub reference_schema : Reference → Option DataSchema
  reference_schema r =
      missing_schema r.on_missing (walk_schema r.path (source_schema scope r.source))

  abbrev pub boolean_of : Option DataSchema → Option DataSchema
  boolean_of none = none
  boolean_of (some s) = some (plain boolean_type)

  abbrev pub negated : Option DataSchema → Option DataSchema
  negated none = none
  negated (some s) = given (only boolean_type (types s)) (plain boolean_type)

  abbrev pub combined : Binary → Option DataSchema → Option DataSchema → Option DataSchema
  combined op none t = none
  combined op (some s) none = none
  combined op (some s) (some t) = binary_schema op s t

  unfoldable pub operation_schema : ℕ → Expression → Option DataSchema
  unfolding literal_schema validate_data binary_schema
  operation_schema depth (literal v) = if leb depth 8 then literal_schema finite v else none
  operation_schema depth (ref r) = if leb depth 8 then reference_schema r else none
  operation_schema depth (negation e) =
      let inner = operation_schema (suc depth) e in if leb depth 8 then negated inner else none
  operation_schema depth (exists e) =
      let inner = operation_schema (suc depth) e in if leb depth 8 then boolean_of inner else none
  operation_schema depth (binary op a b) =
      let left = operation_schema (suc depth) a in
      let right = operation_schema (suc depth) b in
      if leb depth 8 then combined op left right else none

  abbrev pub expression_schema : Expression → Option DataSchema
  expression_schema = operation_schema 0

  abbrev pub fits : Option DataSchema → DataSchema → Bool
  fits none expected = false
  fits (some actual) expected = compatible actual expected

  -- A literal is checked by its value, any other expression by its schema.
  abbrev pub binding_fits : Expression → Option DataSchema → Bool
  binding_fits e none = false
  binding_fits (literal v) (some expected) = validate_data finite v expected
  binding_fits e (some expected) = fits (expression_schema e) expected
