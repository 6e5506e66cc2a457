-- ===== src/Examples/Contracts.antt =====
-- The theorem on data contracts, applied to a report that one step hands to another.
use agentops_workflow_platfo.Base.{◌≡◌, refl, Bool, true, List, [], ◌∷◌}
use agentops_workflow_platfo.Base.Float.{Float}
use agentops_workflow_platfo.Data.Json.{
  Json, pos, integer, string, array, object, nil, cons, end, field,
}
use agentops_workflow_platfo.Data.Schema.{
  DataType, DataSchema, schema, no_properties, property, no_items, items_of, object_type,
  array_type, string_type, integer_type, number_type, null_type, well_formed, validate_data,
}
use agentops_workflow_platfo.Data.Compatible.{compatible}
use agentops_workflow_platfo.Data.Compatible.Sound.{compatible-validate_data}

abbrev all_finite : Float → Bool
all_finite x = true

abbrev plain : List DataType → DataSchema
plain ts = schema ts no_properties [] no_items

-- {"scores": [integer], "note": string}, both required
abbrev produced : DataSchema
produced =
    schema (object_type ∷ [])
      (property "scores"
        (schema (array_type ∷ []) no_properties [] (items_of (plain (integer_type ∷ []))))
        (property "note" (plain (string_type ∷ [])) no_properties))
      ("scores" ∷ "note" ∷ []) no_items

-- {"scores": [number], "note": string | null}, the scores required
abbrev wanted : DataSchema
wanted =
    schema (object_type ∷ null_type ∷ [])
      (property "scores"
        (schema (array_type ∷ []) no_properties [] (items_of (plain (number_type ∷ []))))
        (property "note" (plain (string_type ∷ null_type ∷ [])) no_properties))
      ("scores" ∷ []) no_items

abbrev report : Json
report = object (
    field "scores" (array (cons (integer (pos 4)) (cons (integer (pos 5)) nil)))
      (field "note" (string "fine") end))

produced-well_formed : well_formed produced ≡ true
unfolding well_formed
produced-well_formed = refl

are_compatible : compatible produced wanted ≡ true
unfolding compatible
are_compatible = refl

report_valid : validate_data all_finite report produced ≡ true
unfolding validate_data
report_valid = refl

compatible-validate_data_example : validate_data all_finite report wanted ≡ true
compatible-validate_data_example =
    compatible-validate_data all_finite report produced wanted produced-well_formed are_compatible
      report_valid
