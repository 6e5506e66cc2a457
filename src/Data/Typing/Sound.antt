-- ===== src/Data/Typing/Sound.antt =====
-- Typed expressions do not go wrong: what `expression_schema` accepts is evaluated to a value of the
-- schema, or stops because a reference is missing or a number out of range.
use mathlib.Core.Bool.{false≢true}
use agentops_workflow_platfo.Base.{
  both, ℕ, suc, String, ◌≡◌, refl, sym, ap, ◌∙◌, subst, Bool, true, false, ◌&&◌, ◌||◌, Option, none,
  some, List, Bool-cases, Option-cases, inl, inr, if◌then◌else◌, is_some, leb,
}
use agentops_workflow_platfo.Base.Float.{Float}
use agentops_workflow_platfo.Data.Json.{Json, null}
use agentops_workflow_platfo.Data.Schema.{
  number_type, integer_type, boolean_type, string_type, null_type, DataSchema, has, types,
  well_formed, validate_data,
}
use agentops_workflow_platfo.Data.Expression.{
  Binary, eq, ne, gt, gte, lt, lte, and, or, add, subtract, multiply, concat, coalesce, Outcome,
  value, Python, evaluate, Reference, Source, input, node, OnMissing, error, null_value, default,
  found_or, Key, Expression, literal, ref, negation, exists, binary, source_value, walk,
  resolve_reference, negate, does_exist, exists_of,
}
use agentops_workflow_platfo.Data.Compatible.{compatible}
use agentops_workflow_platfo.Data.Compatible.Sound.{some_inj}
use agentops_workflow_platfo.Data.Typing.{
  plain, only, nullable, retyped, first_data, coalesced, binary_schema, Scope, source_schema,
  missing_schema, reference_schema, operation_schema, expression_schema, walk_schema,
}
use agentops_workflow_platfo.Data.Typing.Literals.{is_value, literal_schema-valid}
use agentops_workflow_platfo.Data.Typing.Shapes.{
  null-nullable, nullable-Valid, nullable-formed, retyped-formed, plain-formed,
}
use agentops_workflow_platfo.Data.Typing.Paths.{
  walk-Valid, walk-formed, walk-none, walk_schema-none,
}
use agentops_workflow_platfo.Data.Typing.Operations.{Safe, returns, missing, range, Is, truth}
use agentops_workflow_platfo.Data.Typing.Operators.{through, json_inj, binary-Safe}

abbrev IsFormed : DataSchema → Type 0
IsFormed s = well_formed s ≡ true

coalesced-IsFormed : (f t r : DataSchema) → IsFormed f → coalesced (some f) t ≡ some r → IsFormed r
coalesced-IsFormed f t r ff e = elim (Bool-cases (compatible t (nullable f))) [
  | inr n ↦ absurd (false≢true (ap is_some (rw n at e)))
  | inl c ↦ chosen (has null_type (types t)) (some_inj (rw c at e))
]
  where
    chosen : (b : Bool) → (if b then nullable f else f) ≡ r → IsFormed r
    chosen true q = subst IsFormed q (nullable-formed f ff)
    chosen false q = subst IsFormed q ff

number-IsFormed : (test : Bool) → IsFormed (plain (if test then number_type else integer_type))
number-IsFormed true = plain-formed number_type refl
number-IsFormed false = plain-formed integer_type refl

binary-IsFormed :
    (op : Binary) (s t r : DataSchema)
    → IsFormed s
    → IsFormed t
    → binary_schema op s t ≡ some r
    → IsFormed r
unfolding binary_schema
binary-IsFormed coalesce s t r sf tf e = elim (Bool-cases (only null_type (types s))) [
  | inl n ↦ subst IsFormed (some_inj (rw n at e)) tf
  | inr m ↦ elim (Option-cases (retyped s (first_data (types s)))) [
    | inl z ↦ absurd (false≢true (ap is_some (rw z at (rw m at e))))
    | inr (f, first) ↦
        coalesced-IsFormed f t r (retyped-formed s f sf first) (rw first at (rw m at e))
  ]
]
binary-IsFormed eq s t r sf tf e = through IsFormed true _ r e λ _. plain-formed boolean_type refl
binary-IsFormed ne s t r sf tf e = through IsFormed true _ r e λ _. plain-formed boolean_type refl
binary-IsFormed concat s t r sf tf e = through IsFormed _ _ r e λ _. plain-formed string_type refl
binary-IsFormed add s t r sf tf e =
    through IsFormed _ _ r e
      λ _. number-IsFormed (has number_type (types s) || has number_type (types t))
binary-IsFormed subtract s t r sf tf e =
    through IsFormed _ _ r e
      λ _. number-IsFormed (has number_type (types s) || has number_type (types t))
binary-IsFormed multiply s t r sf tf e =
    through IsFormed _ _ r e
      λ _. number-IsFormed (has number_type (types s) || has number_type (types t))
binary-IsFormed and s t r sf tf e = through IsFormed _ _ r e λ _. plain-formed boolean_type refl
binary-IsFormed or s t r sf tf e = through IsFormed _ _ r e λ _. plain-formed boolean_type refl
binary-IsFormed gt s t r sf tf e = through IsFormed _ _ r e λ _. plain-formed boolean_type refl
binary-IsFormed gte s t r sf tf e = through IsFormed _ _ r e λ _. plain-formed boolean_type refl
binary-IsFormed lt s t r sf tf e = through IsFormed _ _ r e λ _. plain-formed boolean_type refl
binary-IsFormed lte s t r sf tf e = through IsFormed _ _ r e λ _. plain-formed boolean_type refl

-- The literals of an expression are values that Python can hold.
module _ (finite : Float → Bool) where
  unfoldable pub literals_ok : Expression → Bool
  unfolding is_value
  literals_ok (literal v) = is_value finite v
  literals_ok (ref r) = true
  literals_ok (negation e) = literals_ok e
  literals_ok (exists e) = literals_ok e
  literals_ok (binary op a b) = literals_ok a && literals_ok b

-- The inputs and the outputs of the producers are values of their schemas, which have passed their
-- validators.
pub record Conforms (py : Python) (scope : Scope) (inputs : Json) (outputs : String → Option Json)
    : Type 0 where
  pub inputs_valid : validate_data py.finite inputs scope.input_schema ≡ true
  pub inputs_formed : well_formed scope.input_schema ≡ true
  pub outputs_valid :
      (i : String) (s : DataSchema) (v : Json)
      → scope.producer i ≡ some s
      → outputs i ≡ some v
      → validate_data py.finite v s ≡ true
  pub producers_formed :
      (i : String) (s : DataSchema) → scope.producer i ≡ some s → well_formed s ≡ true

in_time :
    {A : Type 0} (test : Bool) (o : Option A) (s : A)
    → (if test then o else none) ≡ some s
    → o ≡ some s
in_time true o s h = h
in_time false o s h = absurd (false≢true (ap is_some h))

module _ (py : Python) (scope : Scope) (inputs : Json) (outputs : String → Option Json)
    (conforms : Conforms py scope inputs outputs) where
  abbrev Typed : DataSchema → Outcome → Type 0
  Typed s o = Safe (Is py s) o × IsFormed s

  -- What a path finds, or the policy for what it does not find.
  missing-Typed :
      (m : OnMissing) (o : Option Json) (t s : DataSchema)
      → ((v : Json) → o ≡ some v → Is py t v)
      → IsFormed t
      → missing_schema py.finite scope m (some t) ≡ some s
      → Typed s (found_or m o)
  missing-Typed error none t s h f e = (missing, subst IsFormed (some_inj e) f)
  missing-Typed error (some v) t s h f e =
      (returns (subst (λ x. Is py x v) (some_inj e) (h v refl)), subst IsFormed (some_inj e) f)
  missing-Typed null_value none t s h f e =
      subst (λ x. Typed x (value null)) (some_inj e)
        (returns (null-nullable py.finite t), nullable-formed t f)
  missing-Typed null_value (some v) t s h f e =
      subst (λ x. Typed x (value v)) (some_inj e)
        (returns (nullable-Valid py.finite v t (h v refl)), nullable-formed t f)
  missing-Typed (default d) none t s h f e =
      through (λ x. Typed x (value d)) _ t s e λ valid. (returns valid, f)
  missing-Typed (default d) (some v) t s h f e =
      through (λ x. Typed x (value v)) (validate_data py.finite d t) t s e
        λ _. (returns (h v refl), f)

  walked :
      (ks : List Key) (o : Option Json) (b u : DataSchema)
      → ((v : Json) → o ≡ some v → Is py b v)
      → walk_schema ks (some b) ≡ some u
      → (v : Json) → walk ks o ≡ some v
      → Is py u v
  walked ks none b u h p v w = absurd (false≢true (ap is_some (sym (walk-none ks) ∙ w)))
  walked ks (some x) b u h p v w = walk-Valid py.finite ks x b v u (h x refl) w p

  base-valid :
      (src : Source) (b : DataSchema)
      → source_schema scope src ≡ some b
      → ((v : Json) → source_value src inputs outputs ≡ some v → Is py b v) × IsFormed b
  base-valid input b e = (
    λ v w.
        subst (λ x. Is py x v) (some_inj e)
          (subst (Is py scope.input_schema) (json_inj w) conforms.inputs_valid),
    subst IsFormed (some_inj e) conforms.inputs_formed,
  )
  base-valid (node i) b e =
      let found = in_time (scope.precedes i) (scope.producer i) b e in
      (λ v w. conforms.outputs_valid i b v found w, conforms.producers_formed i b found)

  reference-Typed :
      (r : Reference) (s : DataSchema)
      → reference_schema py.finite scope r ≡ some s
      → Typed s (found_or r.on_missing (resolve_reference r inputs outputs))
  unfolding resolve_reference
  reference-Typed r s e = elim (Option-cases (source_schema scope r.source)) [
    | inl z ↦ absurd (false≢true (ap is_some (rw (walk_schema-none r.path) at (rw z at e))))
    | inr (b, found) ↦ elim (Option-cases (walk_schema r.path (some b))) [
      | inl z ↦ absurd (false≢true (ap is_some (rw z at (rw found at e))))
      | inr (t, reached) ↦
          let base = base-valid r.source b found in
          missing-Typed r.on_missing (walk r.path (source_value r.source inputs outputs)) t s
            (walked r.path (source_value r.source inputs outputs) b t base.0 reached)
            (walk-formed r.path b t reached base.1) (rw reached at (rw found at e))
    ]
  ]

  boolean-Typed : (o : Outcome) → Safe (Is py (plain boolean_type)) o → Typed (plain boolean_type) o
  boolean-Typed o h = (h, plain-formed boolean_type refl)

  negate-Safe :
      {P : Json → Type 0} {o : Outcome} → Safe P o → Safe (Is py (plain boolean_type)) (negate py o)
  negate-Safe (returns h) = returns (truth py _)
  negate-Safe missing = missing
  negate-Safe range = range

  does_exist-Safe :
      {P : Json → Type 0} {o : Outcome}
      → Safe P o
      → Safe (Is py (plain boolean_type)) (does_exist py o)
  does_exist-Safe (returns h) = returns (truth py _)
  does_exist-Safe missing = returns (truth py _)
  does_exist-Safe range = range

  exists-Safe :
      {P : Json → Type 0} {o : Outcome} (e : Expression)
      → Safe P o
      → Safe (Is py (plain boolean_type)) (exists_of py inputs outputs e o)
  exists-Safe (ref r) h = returns (truth py _)
  exists-Safe (literal v) h = does_exist-Safe h
  exists-Safe (negation e) h = does_exist-Safe h
  exists-Safe (exists e) h = does_exist-Safe h
  exists-Safe (binary op a b) h = does_exist-Safe h

  operation-Typed :
      (e : Expression) (depth : ℕ) (s : DataSchema)
      → literals_ok py.finite e ≡ true
      → operation_schema py.finite scope depth e ≡ some s
      → Typed s (evaluate py inputs outputs e)
  unfolding operation_schema evaluate literals_ok
  operation-Typed (literal v) depth s l h =
      let lit = literal_schema-valid py.finite v s l (in_time (leb depth 8) _ s h) in
      (returns lit.0, lit.1)
  operation-Typed (ref r) depth s l h = reference-Typed r s (in_time (leb depth 8) _ s h)
  operation-Typed (negation e) depth s l h =
      elim (Option-cases (operation_schema py.finite scope (suc depth) e)) [
        | inl z ↦ absurd (false≢true (ap is_some (rw z at (in_time (leb depth 8) _ s h))))
        | inr (t, inner) ↦
            through (λ x. Typed x (negate py (evaluate py inputs outputs e))) _ _ s
              (rw inner at (in_time (leb depth 8) _ s h))
              λ _. boolean-Typed _ (negate-Safe (operation-Typed e (suc depth) t l inner).0)
      ]
  operation-Typed (exists e) depth s l h =
      elim (Option-cases (operation_schema py.finite scope (suc depth) e)) [
        | inl z ↦ absurd (false≢true (ap is_some (rw z at (in_time (leb depth 8) _ s h))))
        | inr (t, inner) ↦
            through (λ x. Typed x (exists_of py inputs outputs e (evaluate py inputs outputs e)))
              true _ s (rw inner at (in_time (leb depth 8) _ s h))
              λ _. boolean-Typed _ (exists-Safe e (operation-Typed e (suc depth) t l inner).0)
      ]
  operation-Typed (binary op a b) depth s l h =
      let oks = both {a = literals_ok py.finite a} l in
      elim (Option-cases (operation_schema py.finite scope (suc depth) a)) [
        | inl z ↦ absurd (false≢true (ap is_some (rw z at (in_time (leb depth 8) _ s h))))
        | inr (t, left) ↦ elim (Option-cases (operation_schema py.finite scope (suc depth) b)) [
          | inl z ↦ absurd (false≢true (ap is_some (rw (left, z) at (in_time (leb depth 8) _ s h))))
          | inr (u, right) ↦
              let result : binary_schema op t u ≡ some s =
                rw (left, right) at (in_time (leb depth 8) _ s h) in
              let x = operation-Typed a (suc depth) t oks.0 left in
              let y = operation-Typed b (suc depth) u oks.1 right in
              (
                binary-Safe py op t u s x.1 y.1 result x.0 y.0,
                binary-IsFormed op t u s x.1 y.1 result,
              )
        ]
      ]

  -- An expression that has a type, over inputs and outputs of their types, is evaluated to a value of
  -- its type, or raises that a reference is missing or a number out of range: never another error.
  pub evaluate-Safe :
      (e : Expression) (s : DataSchema)
      → literals_ok py.finite e ≡ true
      → expression_schema py.finite scope e ≡ some s
      → Safe (λ v. validate_data py.finite v s ≡ true) (evaluate py inputs outputs e)
  evaluate-Safe e s l h = (operation-Typed e 0 s l h).0

  pub expression_schema-formed :
      (e : Expression) (s : DataSchema)
      → literals_ok py.finite e ≡ true
      → expression_schema py.finite scope e ≡ some s
      → well_formed s ≡ true
  expression_schema-formed e s l h = (operation-Typed e 0 s l h).1
