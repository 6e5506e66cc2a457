-- ===== src/Data/Schema.antt =====
-- `DataSchema` of schemas/workflow_graph.py and `validate_data` of
-- services/graph_validation.py. A ValidationError is the answer `false`.
use agentops_workflow_platfo.Base.{
  String, str_eq, Bool, true, false, not, ◌&&◌, ◌||◌, Option, none, some, List, [], ◌∷◌, any, all,
  if◌then◌else◌, is_some,
}
use agentops_workflow_platfo.Base.Float.{Float}
use agentops_workflow_platfo.Data.Json.{
  Json, Items, Fields, null, boolean, integer, number, string, array, object, nil, cons, end, field,
  has_key,
}

pub data DataType : Type 0 where
  object_type array_type string_type integer_type number_type boolean_type null_type : DataType

abbrev pub same_type : DataType → DataType → Bool
same_type object_type object_type = true
same_type array_type array_type = true
same_type string_type string_type = true
same_type integer_type integer_type = true
same_type number_type number_type = true
same_type boolean_type boolean_type = true
same_type null_type null_type = true
same_type _ _ = false

-- `types` is the set that `type` stands for, `properties` a dict, `items` a schema or None.
mutual
  pub data DataSchema : Type 0 where
    schema : List DataType → Properties → List String → ItemSchema → DataSchema

  pub data Properties : Type 0 where
    no_properties : Properties
    property : String → DataSchema → Properties → Properties

  pub data ItemSchema : Type 0 where
    no_items : ItemSchema
    items_of : DataSchema → ItemSchema

abbrev pub has : DataType → List DataType → Bool
has t = any (same_type t)

abbrev pub types : DataSchema → List DataType
types (schema ts ps required it) = ts

-- schema.properties[key]
abbrev pub property_at : String → Properties → Option DataSchema
property_at k no_properties = none
property_at k (property j s rest) = if str_eq j k then some s else property_at k rest

abbrev pub no_property : Properties → Bool
no_property no_properties = true
no_property (property _ _ _) = false

abbrev pub listed : List String → String → Bool
listed names k = any (λ n. str_eq n k) names

abbrev pub distinct : List String → Bool
distinct [] = true
distinct (k ∷ rest) = not (listed rest k) && distinct rest

abbrev no_item : ItemSchema → Bool
no_item no_items = true
no_item (items_of _) = false

abbrev no_names : List String → Bool
no_names [] = true
no_names (_ ∷ _) = false

-- One data type, or one data type and null.
abbrev pub valid_union : List DataType → Bool
valid_union [] = false
valid_union (t ∷ []) = true
valid_union (t ∷ u ∷ []) = not (same_type t u) && (same_type t null_type || same_type u null_type)
valid_union _ = false

-- The validator `valid_shape` of one schema.
unfoldable pub valid_shape : DataSchema → Bool
valid_shape (schema ts ps required it) =
    valid_union ts
    && (has object_type ts || (no_property ps && no_names required))
    && distinct required
    && all (λ k. is_some (property_at k ps)) required
    && (if has array_type ts then not (no_item it) else no_item it)

-- A schema that pydantic has accepted: every part of it has passed the validator.
unfoldable mutual
  unfolding valid_shape

  pub well_formed : DataSchema → Bool
  well_formed (schema ts ps required it) =
      valid_shape (schema ts ps required it) && well_formed_properties ps && well_formed_items it

  pub well_formed_properties : Properties → Bool
  well_formed_properties no_properties = true
  well_formed_properties (property k s rest) = well_formed s && well_formed_properties rest

  pub well_formed_items : ItemSchema → Bool
  well_formed_items no_items = true
  well_formed_items (items_of s) = well_formed s

-- `isfinite` of a float is the argument `finite`.
module _ (finite : Float → Bool) where
  unfoldable mutual
    pub validate_data : Json → DataSchema → Bool
    validate_data null (schema ts ps required it) = has null_type ts
    validate_data (boolean b) (schema ts ps required it) = has boolean_type ts
    validate_data (integer n) (schema ts ps required it) = has integer_type ts || has number_type ts
    validate_data (number x) (schema ts ps required it) = has number_type ts && finite x
    validate_data (string s) (schema ts ps required it) = has string_type ts
    validate_data (array xs) (schema ts ps required it) = has array_type ts && validate_items xs it
    validate_data (object fs) (schema ts ps required it) =
        has object_type ts && all (λ k. has_key k fs) required && validate_fields fs ps

    pub validate_items : Items → ItemSchema → Bool
    validate_items nil it = true
    validate_items (cons x xs) no_items = false
    validate_items (cons x xs) (items_of s) = validate_data x s && validate_items xs (items_of s)

    -- An undeclared field is refused.
    pub validate_fields : Fields → Properties → Bool
    validate_fields end ps = true
    validate_fields (field k v rest) ps =
        elim (property_at k ps) [ none ↦ false | some s ↦ validate_data v s ]
        && validate_fields rest ps
