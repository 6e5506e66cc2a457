-- ===== src/Data/Typing/Literals.antt =====
-- A literal is a value of the schema that is derived from it, and that schema is well formed.
use mathlib.Core.Bool.{false≢true}
use agentops_workflow_platfo.Base.{
  both, String, str_eq, eq_iff, ◌≡◌, refl, ap, subst, Bool, true, false, not, ◌&&◌, ◌||◌, Option,
  none, some, List, [], ◌∷◌, all, arith, Bool-cases, inl, inr, leb, is_some,
}
use agentops_workflow_platfo.Base.Float.{Float}
use agentops_workflow_platfo.Data.Json.{
  ℤ, Json, Items, Fields, null, boolean, integer, number, string, array, object, nil, cons, end,
  field, has_key,
}
use agentops_workflow_platfo.Data.Schema.{
  DataType, array_type, string_type, integer_type, number_type, boolean_type, null_type, DataSchema,
  Properties, schema, no_properties, property, no_items, items_of, object_type, has, property_at,
  listed, distinct, well_formed, well_formed_properties, valid_shape, validate_data, validate_items,
  validate_fields,
}
use agentops_workflow_platfo.Data.Compatible.Sound.{some_inj}
use agentops_workflow_platfo.Data.Typing.{
  plain, names, size, object_of, add_property, array_of, array_if, literal_schema, first_schema,
  literal_properties,
}

-- A value that Python can hold: the keys of a dict are distinct, and, as pydantic demands of a graph,
-- floats are finite.
module _ (finite : Float → Bool) where
  unfoldable mutual
    pub is_value : Json → Bool
    is_value null = true
    is_value (boolean b) = true
    is_value (integer n) = true
    is_value (number x) = finite x
    is_value (string s) = true
    is_value (array xs) = are_values xs
    is_value (object fs) = distinct (names fs) && field_values fs

    pub are_values : Items → Bool
    are_values nil = true
    are_values (cons x xs) = is_value x && are_values xs

    pub field_values : Fields → Bool
    field_values end = true
    field_values (field k v rest) = is_value v && field_values rest

str_eq-flip : (j k : String) → str_eq j k ≡ false → str_eq k j ≡ false
str_eq-flip j k h = ground (arith, eq_iff j k, eq_iff k j)

not-true : (a : Bool) → not a ≡ true → a ≡ false
not-true a h = ground arith

neither : (a b : Bool) → a || b ≡ false → (a ≡ false) × (b ≡ false)
neither a b h = ground arith

-- An entry that names no field of the value is not looked at.
validate_fields-skip :
    (finite : Float → Bool) (k : String) (s : DataSchema) (ps : Properties) (fs : Fields)
    → listed (names fs) k ≡ false
    → validate_fields finite fs ps ≡ true
    → validate_fields finite fs (property k s ps) ≡ true
unfolding validate_data
validate_fields-skip finite k s ps end new h = refl
validate_fields-skip finite k s ps (field j v rest) new h =
    let apart = neither (str_eq j k) (listed (names rest) k) new in
    let parts = both {b = validate_fields finite rest ps} h in
    rw (str_eq-flip j k apart.0)
      (ground (arith, parts.0, validate_fields-skip finite k s ps rest apart.1 parts.1))

-- A required name stays in the value when a field is added.
has_key-weaken :
    (k : String) (v : Json) (fs : Fields) (ns : List String)
    → all (λ n. has_key n fs) ns ≡ true
    → all (λ n. has_key n (field k v fs)) ns ≡ true
has_key-weaken k v fs [] h = refl
has_key-weaken k v fs (n ∷ ns) h =
    ground (arith, has_key-weaken k v fs ns, both {a = has_key n fs} h)

has_key-names : (fs : Fields) → all (λ n. has_key n fs) (names fs) ≡ true
has_key-names end = refl
has_key-names (field k v rest) =
    ground (arith, eq_iff k k, has_key-weaken k v rest (names rest) (has_key-names rest))

declared-weaken :
    (k : String) (s : DataSchema) (ps : Properties) (ns : List String)
    → all (λ n. is_some (property_at n ps)) ns ≡ true
    → all (λ n. is_some (property_at n (property k s ps))) ns ≡ true
declared-weaken k s ps [] h = refl
declared-weaken k s ps (n ∷ ns) h =
    ground (arith, declared-weaken k s ps ns, both {a = is_some (property_at n ps)} h)

-- What makes the properties derived from an object fit it.
record Fit (finite : Float → Bool) (fs : Fields) (ps : Properties) : Type 0 where
  valid : validate_fields finite fs ps ≡ true
  declared : all (λ n. is_some (property_at n ps)) (names fs) ≡ true
  formed : well_formed_properties ps ≡ true

object_of-some :
    (fs : Fields) (o : Option Properties) (s : DataSchema)
    → object_of fs o ≡ some s
    → (ps : Properties) × (o ≡ some ps) × (schema (object_type ∷ []) ps (names fs) no_items ≡ s)
object_of-some fs none s h = absurd (false≢true (ap is_some h))
object_of-some fs (some ps) s h = elim (Bool-cases (leb (size fs) 100)) [
  | inl small ↦ (ps, refl, some_inj (rw small at h))
  | inr large ↦ absurd (false≢true (ap is_some (rw large at h)))
]

add_property-some :
    (k : String) (a : Option DataSchema) (b : Option Properties) (ps : Properties)
    → add_property k a b ≡ some ps
    → (s : DataSchema) × (qs : Properties) × (a ≡ some s) × (b ≡ some qs) × (property k s qs ≡ ps)
add_property-some k none b ps h = absurd (ground (arith, h))
add_property-some k (some s) none ps h = absurd (ground (arith, h))
add_property-some k (some s) (some qs) ps h = (s, qs, refl, refl, ground (arith, h))

array_if-some :
    (finite : Float → Bool) (xs : Items) (o : Option DataSchema) (s : DataSchema)
    → array_if finite xs o ≡ some s
    → (t : DataSchema) × (o ≡ some t)
      × (validate_items finite xs (items_of t) ≡ true)
      × (array_of t ≡ s)
array_if-some finite xs none s h = absurd (false≢true (ap is_some h))
array_if-some finite xs (some t) s h = elim (Bool-cases (validate_items finite xs (items_of t))) [
  | inl v ↦ (t, refl, v, some_inj (rw v at h))
  | inr n ↦ absurd (false≢true (ap is_some (rw n at h)))
]

abbrev Literal : (Float → Bool) → Json → DataSchema → Type 0
Literal finite v s = (validate_data finite v s ≡ true) × (well_formed s ≡ true)

module _ (finite : Float → Bool) where
  object-Literal :
      (fs : Fields) (ps : Properties)
      → distinct (names fs) ≡ true
      → Fit finite fs ps
      → Literal finite (object fs) (schema (object_type ∷ []) ps (names fs) no_items)
  unfolding validate_data well_formed valid_shape
  object-Literal fs ps apart f =
      (ground (arith, has_key-names fs, f.valid), ground (arith, apart, f.declared, f.formed))

  add-Fit :
      (k : String) (v : Json) (s : DataSchema) (rest : Fields) (ps : Properties)
      → listed (names rest) k ≡ false
      → Literal finite v s
      → Fit finite rest ps
      → Fit finite (field k v rest) (property k s ps)
  unfolding validate_data well_formed
  add-Fit k v s rest ps new lit f = record {
    valid =
        ground (arith, (eq_iff k k), lit.0, validate_fields-skip finite k s ps rest new f.valid);
    declared = ground (arith, eq_iff k k, declared-weaken k s ps (names rest) f.declared);
    formed = ground (arith, lit.1, f.formed);
  }

  array-formed : (t : DataSchema) → well_formed t ≡ true → well_formed (array_of t) ≡ true
  unfolding well_formed valid_shape
  array-formed t w = ground (arith, w)

  array-valid :
      (xs : Items) (t : DataSchema)
      → validate_items finite xs (items_of t) ≡ true
      → validate_data finite (array xs) (array_of t) ≡ true
  unfolding validate_data
  array-valid xs t h = h

  -- A value of one data type that has no parts.
  simple-Literal :
      (v : Json) (t : DataType) (s : DataSchema)
      → validate_data finite v (plain t) ≡ true
      → well_formed (plain t) ≡ true
      → some (plain t) ≡ some s
      → Literal finite v s
  simple-Literal v t s valid formed h = subst (Literal finite v) (some_inj h) (valid, formed)

  plain-formed :
      (t : DataType) → has t (object_type ∷ array_type ∷ []) ≡ false → well_formed (plain t) ≡ true
  unfolding well_formed valid_shape
  plain-formed t h = ground arith

  null-Literal : (s : DataSchema) → some (plain null_type) ≡ some s → Literal finite null s
  unfolding validate_data
  null-Literal s h = simple-Literal null null_type s refl (plain-formed null_type refl) h

  boolean-Literal :
      (b : Bool) (s : DataSchema)
      → some (plain boolean_type) ≡ some s
      → Literal finite (boolean b) s
  unfolding validate_data
  boolean-Literal b s h =
      simple-Literal (boolean b) boolean_type s refl (plain-formed boolean_type refl) h

  integer-Literal :
      (n : ℤ) (s : DataSchema) → some (plain integer_type) ≡ some s → Literal finite (integer n) s
  unfolding validate_data
  integer-Literal n s h =
      simple-Literal (integer n) integer_type s refl (plain-formed integer_type refl) h

  number-Literal :
      (x : Float) (s : DataSchema)
      → finite x ≡ true
      → some (plain number_type) ≡ some s
      → Literal finite (number x) s
  unfolding validate_data
  number-Literal x s g h =
      simple-Literal (number x) number_type s g (plain-formed number_type refl) h

  string-Literal :
      (t : String) (s : DataSchema)
      → some (plain string_type) ≡ some s
      → Literal finite (string t) s
  unfolding validate_data
  string-Literal t s h =
      simple-Literal (string t) string_type s refl (plain-formed string_type refl) h

  no_fields-Fit : Fit finite end no_properties
  unfolding validate_data well_formed
  no_fields-Fit = record { valid = refl; declared = refl; formed = refl }

  mutual
    unfolding literal_schema is_value

    accepted_value-Literal :
        (v : Json) (s : DataSchema)
        → is_value finite v ≡ true
        → literal_schema finite v ≡ some s
        → Literal finite v s
    accepted_value-Literal null s g h = null-Literal s h
    accepted_value-Literal (boolean b) s g h = boolean-Literal b s h
    accepted_value-Literal (integer n) s g h = integer-Literal n s h
    accepted_value-Literal (number x) s g h = number-Literal x s g h
    accepted_value-Literal (string t) s g h = string-Literal t s h
    accepted_value-Literal (array xs) s g h =
        let (t, first, fit, is_s) = array_if-some finite xs (first_schema finite xs) s h in
        subst (Literal finite (array xs)) is_s
          (array-valid xs t fit, array-formed t (first-formed xs t g first))
    accepted_value-Literal (object fs) s g h =
        let (ps, found, is_s) = object_of-some fs (literal_properties finite fs) s h in
        let parts = both {a = distinct (names fs)} g in
        subst (Literal finite (object fs)) is_s
          (object-Literal fs ps parts.0 (fields-Fit fs ps parts.0 parts.1 found))

    first-formed :
        (xs : Items) (t : DataSchema)
        → are_values finite xs ≡ true
        → first_schema finite xs ≡ some t
        → well_formed t ≡ true
    first-formed nil t g h = (null-Literal t h).1
    first-formed (cons x xs) t g h =
        (accepted_value-Literal x t (both {a = is_value finite x} g).0 h).1

    fields-Fit :
        (fs : Fields) (ps : Properties)
        → distinct (names fs) ≡ true
        → field_values finite fs ≡ true
        → literal_properties finite fs ≡ some ps
        → Fit finite fs ps
    fields-Fit end ps d g h = subst (Fit finite end) (ground (arith, h)) no_fields-Fit
    fields-Fit (field k v rest) ps d g h =
        let (s, qs, head, tail, is_ps) =
          add_property-some k (literal_schema finite v) (literal_properties finite rest) ps h in
        let apart = both {b = distinct (names rest)} d in
        let values = both {a = is_value finite v} g in
        subst (Fit finite (field k v rest)) is_ps (
          add-Fit k v s rest qs (not-true (listed (names rest) k) apart.0)
            (accepted_value-Literal v s values.0 head) (fields-Fit rest qs apart.1 values.1 tail))

  -- A literal that Python can hold is a value of its schema, and the schema passes the validators.
  pub literal_schema-valid :
      (v : Json) (s : DataSchema)
      → is_value finite v ≡ true
      → literal_schema finite v ≡ some s
      → (validate_data finite v s ≡ true) × (well_formed s ≡ true)
  literal_schema-valid = accepted_value-Literal
