-- ===== src/Data/Compatible.antt =====
-- `compatible` of services/graph_validation.py: every value of the actual schema is one of the expected.
pub mod Sound
use agentops_workflow_platfo.Base.{
  ℕ, String, str_eq, eq_iff, ◌≡◌, refl, sym, ap, ◌∙◌, Bool, true, false, not, ◌&&◌, ◌||◌, Option,
  none, some, List, [], ◌∷◌, any, all, if◌then◌else◌, is_some, arith, Bool-cases, inl, inr,
}
use agentops_workflow_platfo.Base.Float.{Float}
use agentops_workflow_platfo.Data.Json.{
  Json, Items, Fields, null, boolean, integer, number, string, array, object, nil, cons, end, field,
  has_key,
}
use agentops_workflow_platfo.Data.Schema.{
  DataType, object_type, array_type, integer_type, number_type, same_type, DataSchema, Properties,
  ItemSchema, schema, no_properties, property, no_items, items_of, has, types, property_at, listed,
  well_formed, valid_shape, validate_data,
}

-- actual.types - ({"integer"} if "number" in expected.types else set()) <= expected.types
abbrev pub subtypes : List DataType → List DataType → Bool
subtypes actual expected =
    all (λ t. has t expected || (same_type t integer_type && has number_type expected)) actual

unfoldable mutual
  pub compatible : DataSchema → DataSchema → Bool
  compatible (schema ts ps required it) (schema us qs wanted jt) =
      subtypes ts us
      && (if has object_type ts
          then all (listed required) wanted && compatible_properties ps qs
          else if has array_type ts
          then compatible_items it jt
          else true)

  -- Every property of the actual schema is declared by the expected one, and compatible with it.
  pub compatible_properties : Properties → Properties → Bool
  compatible_properties no_properties qs = true
  compatible_properties (property k s rest) qs =
      elim (property_at k qs) [ none ↦ false | some t ↦ compatible s t ]
      && compatible_properties rest qs

  pub compatible_items : ItemSchema → ItemSchema → Bool
  compatible_items no_items jt = false
  compatible_items (items_of s) no_items = false
  compatible_items (items_of s) (items_of t) = compatible s t
