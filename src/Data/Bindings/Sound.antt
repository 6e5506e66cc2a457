-- ===== src/Data/Bindings/Sound.antt =====
-- Bindings that the validation of a graph has accepted meet their data contract at run time.
use mathlib.Core.Bool.{false≢true}
use agentops_workflow_platfo.Base.{
  both, ℕ, String, ◌≡◌, refl, Bool, true, false, ◌&&◌, Option, none, some, List, [], ◌∷◌, all,
  if◌then◌else◌, arith, Option-cases, inl, inr,
}
use agentops_workflow_platfo.Base.Float.{Float}
use agentops_workflow_platfo.Data.Json.{Json, Fields, object, end, field, has_key}
use agentops_workflow_platfo.Data.Schema.{
  DataType, same_type, ItemSchema, DataSchema, Properties, schema, object_type, has, property_at,
  validate_data, validate_fields,
}
use agentops_workflow_platfo.Data.Expression.{
  Expression, literal, ref, negation, exists, binary, Outcome, binding_missing, expression_range,
  Python, evaluate,
}
use agentops_workflow_platfo.Data.Compatible.Sound.{compatible-validate_data}
use agentops_workflow_platfo.Data.Typing.{Scope, only, fits, binding_fits, expression_schema}
use agentops_workflow_platfo.Data.Typing.Operations.{Safe, returns, missing, range}
use agentops_workflow_platfo.Data.Typing.Sound.{
  literals_ok, Conforms, evaluate-Safe, expression_schema-formed,
}
use agentops_workflow_platfo.Data.Bindings.{
  Bindings, has_binding, bindings, Evaluated, evaluated, stopped, put_field, evaluate_all, Resolved,
  bound, failed, too_large, payload_bounds, checked, resolve_bindings,
}

-- The literals of all expressions of the map.
abbrev pub all_literals_ok : (Float → Bool) → Bindings → Bool
all_literals_ok finite values = all (λ b. literals_ok finite b.1) values

-- Fields of the right types under all the keys, or one of the two errors that types do not exclude.
data AllSafe (finite : Float → Bool) (ps : Properties) (values : Bindings)
    : Evaluated → Type 0 where
  all_bound :
      {fs : Fields}
      → validate_fields finite fs ps ≡ true
      → ((k : String) → has_binding values k ≡ true → has_key k fs ≡ true)
      → AllSafe finite ps values (evaluated fs)
  one_missing : AllSafe finite ps values (stopped binding_missing)
  one_out_of_range : AllSafe finite ps values (stopped expression_range)

module _ (finite : Float → Bool) where
  no_fields : (ps : Properties) → AllSafe finite ps [] (evaluated end)
  unfolding validate_data
  no_fields ps = all_bound refl (λ k h. absurd (false≢true h))

abbrev properties : DataSchema → Properties
properties (schema ts ps required it) = ps

module _ {P : Json → Type 0} where
  pub weaken : {Q : Json → Type 0} {o : Outcome} → ((v : Json) → P v → Q v) → Safe P o → Safe Q o
  weaken k (returns {v} h) = returns (k v h)
  weaken k missing = missing
  weaken k range = range

module _ (py : Python) (scope : Scope) (inputs : Json) (outputs : String → Option Json)
    (conforms : Conforms py scope inputs outputs) where
  abbrev Fitting : Expression → DataSchema → Type 0
  Fitting e t = Safe (λ v. validate_data py.finite v t ≡ true) (evaluate py inputs outputs e)

  fits-Safe :
      (e : Expression) (t : DataSchema)
      → literals_ok py.finite e ≡ true
      → fits py.finite scope (expression_schema py.finite scope e) t ≡ true
      → Fitting e t
  fits-Safe e t l h = elim (Option-cases (expression_schema py.finite scope e)) [
    | inl z ↦ absurd (false≢true (rw z at h))
    | inr (s, typed) ↦
        weaken
          (λ v valid.
            compatible-validate_data py.finite v s t
              (expression_schema-formed py scope inputs outputs conforms e s l typed)
              (rw typed at h) valid)
          (evaluate-Safe py scope inputs outputs conforms e s l typed)
  ]

  -- The value of a binding that fits is a value of the field's schema.
  binding-Safe :
      (e : Expression) (t : DataSchema)
      → literals_ok py.finite e ≡ true
      → binding_fits py.finite scope e (some t) ≡ true
      → Fitting e t
  unfolding evaluate
  binding-Safe (literal v) t l h = returns h
  binding-Safe (ref r) t l h = fits-Safe (ref r) t l h
  binding-Safe (negation e) t l h = fits-Safe (negation e) t l h
  binding-Safe (exists e) t l h = fits-Safe (exists e) t l h
  binding-Safe (binary op a b) t l h = fits-Safe (binary op a b) t l h

  add-AllSafe :
      (k : String) (e : Expression) (rest : Bindings) (ps : Properties) (t : DataSchema)
      {o : Outcome} {r : Evaluated}
      → property_at k ps ≡ some t
      → Safe (λ v. validate_data py.finite v t ≡ true) o
      → AllSafe py.finite ps rest r
      → AllSafe py.finite ps ((k, e) ∷ rest) (put_field k o r)
  unfolding validate_data
  add-AllSafe k e rest ps t p missing r = one_missing
  add-AllSafe k e rest ps t p range r = one_out_of_range
  add-AllSafe k e rest ps t p (returns h) one_missing = one_missing
  add-AllSafe k e rest ps t p (returns h) one_out_of_range = one_out_of_range
  add-AllSafe k e rest ps t p (returns h) (all_bound valid keys) =
      all_bound (rw p (ground (arith, h, valid))) λ j b. ground (arith, keys j)

  declared :
      (e : Expression) (o : Option DataSchema)
      → binding_fits py.finite scope e o ≡ true
      → (t : DataSchema) × (o ≡ some t)
  declared e none h = absurd (false≢true h)
  declared e (some t) h = (t, refl)

  all-Safe :
      (values : Bindings) (ps : Properties)
      → all_literals_ok py.finite values ≡ true
      → all (λ b. binding_fits py.finite scope b.1 (property_at b.0 ps)) values ≡ true
      → AllSafe py.finite ps values (evaluate_all py inputs outputs values)
  unfolding evaluate_all
  all-Safe [] ps l h = no_fields py.finite ps
  all-Safe ((k, e) ∷ rest) ps l h =
      let (t, found) =
        declared e (property_at k ps)
          (both {a = binding_fits py.finite scope e (property_at k ps)} h).0 in
      add-AllSafe k e rest ps t found
        (binding-Safe e t (both {a = literals_ok py.finite e} l).0
          (rw found at (both {a = binding_fits py.finite scope e (property_at k ps)} h).0))
        (all-Safe rest ps (both {a = literals_ok py.finite e} l).1
          (both {a = binding_fits py.finite scope e (property_at k ps)} h).1)

-- What a resolved map has met: the contract, or one of the errors that the types do not exclude.
pub data Met (finite : Float → Bool) (expected : DataSchema) : Resolved → Type 0 where
  met :
      {fs : Fields}
      → validate_data finite (object fs) expected ≡ true
      → Met finite expected (bound fs)
  met_missing : Met finite expected (failed binding_missing)
  met_range : Met finite expected (failed expression_range)
  met_large : Met finite expected too_large

all_present :
    (test present : String → Bool) (ks : List String)
    → ((k : String) → test k ≡ true → present k ≡ true)
    → all test ks ≡ true
    → all present ks ≡ true
all_present test present [] imp h = refl
all_present test present (k ∷ ks) imp h =
    ground (
      arith,
      imp k (both {a = test k} h).0,
      all_present test present ks imp (both {a = test k} h).1,
    )

bounded-Met :
    (finite : Float → Bool) (expected : DataSchema) (fs : Fields) (small : Bool)
    → validate_data finite (object fs) expected ≡ true
    → Met finite expected (if small then bound fs else too_large)
bounded-Met finite expected fs true valid = met valid
bounded-Met finite expected fs false valid = met_large

accepted :
    (finite : Float → Bool) (ts : List DataType) (ps : Properties) (required : List String)
    (it : ItemSchema) (fs : Fields)
    → has object_type ts ≡ true
    → all (λ k. has_key k fs) required ≡ true
    → validate_fields finite fs ps ≡ true
    → validate_data finite (object fs) (schema ts ps required it) ≡ true
unfolding validate_data
accepted finite ts ps required it fs o k v = ground (arith, o, k, v)

fitting :
    (finite : Float → Bool) (scope : Scope) (values : Bindings) (t : DataSchema)
    → bindings finite scope values t ≡ true
    → all (λ e. binding_fits finite scope e.1 (property_at e.0 (properties t))) values ≡ true
unfolding bindings
fitting finite scope values (schema ts ps required it) h =
    (both {a = only object_type ts && all (has_binding values) required} h).1

module _ (py : Python) (dumps : Json → Option ℕ) (scope : Scope) (inputs : Json)
    (outputs : String → Option Json) (conforms : Conforms py scope inputs outputs) where
  checked-Met :
      (values : Bindings) (expected : DataSchema) {r : Evaluated}
      → bindings py.finite scope values expected ≡ true
      → AllSafe py.finite (properties expected) values r
      → Met py.finite expected (checked py dumps inputs outputs expected r)
  unfolding bindings
  checked-Met values (schema ts ps required it) b one_missing = met_missing
  checked-Met values (schema ts ps required it) b one_out_of_range = met_range
  checked-Met values (schema ts ps required it) b (all_bound {fs} valid keys) =
      let kind =
        both {a = only object_type ts}
          (both {a = only object_type ts && all (has_binding values) required} b).0 in
      let meets =
        accepted py.finite ts ps required it fs (both {a = all (same_type object_type) ts} kind.0).1
          (all_present (has_binding values) (λ k. has_key k fs) required keys kind.1) valid in
      rw meets (
        bounded-Met py.finite (schema ts ps required it) fs
          (payload_bounds dumps (field "value" (object fs) end)) meets)

  -- Where the validation of a graph has accepted the bindings against the contract and the data that they
  -- refer to conform to their schemas, `resolve_bindings` gives a dict that meets the contract, or fails
  -- because a reference is missing, a number is out of range or the dict is too large. The error of a
  -- wrong type and the ValidationError of the last check never occur.
  pub resolve_bindings-Met :
      (values : Bindings) (expected : DataSchema)
      → all_literals_ok py.finite values ≡ true
      → bindings py.finite scope values expected ≡ true
      → Met py.finite expected (resolve_bindings py dumps inputs outputs values expected)
  unfolding resolve_bindings
  resolve_bindings-Met values expected l b = checked-Met values expected b (
      all-Safe py scope inputs outputs conforms values (properties expected) l
        (fitting py.finite scope values expected b))
