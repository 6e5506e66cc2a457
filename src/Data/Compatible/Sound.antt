-- ===== src/Data/Compatible/Sound.antt =====
-- Compatibility of schemas is inclusion of their values.
use mathlib.Core.Bool.{false≢true}
use agentops_workflow_platfo.Base.{
  both, String, str_eq, eq_iff, ◌≡◌, refl, sym, subst, Bool, true, false, ◌&&◌, ◌||◌, some, List,
  [], ◌∷◌, all, arith, Bool-cases, Option-cases, inl, inr,
}
use agentops_workflow_platfo.Base.Float.{Float}
use agentops_workflow_platfo.Data.Json.{
  Json, Items, Fields, null, boolean, integer, number, string, array, object, nil, cons, end, field,
  has_key,
}
use agentops_workflow_platfo.Data.Schema.{
  DataType, object_type, array_type, integer_type, number_type, null_type, boolean_type,
  string_type, same_type, DataSchema, Properties, ItemSchema, schema, no_properties, property,
  no_items, items_of, has, property_at, listed, well_formed, well_formed_properties,
  well_formed_items, valid_shape, valid_union, validate_data, validate_items, validate_fields,
}
use agentops_workflow_platfo.Data.Compatible.{
  subtypes, compatible, compatible_properties, compatible_items,
}

pub both3 : (a b c : Bool) → a && b && c ≡ true → (a ≡ true) × (b ≡ true) × (c ≡ true)
both3 a b c h = ground arith

pub some_inj : {s t : DataSchema} → some s ≡ some t → s ≡ t
some_inj h = ground arith

pub same_type→eq : (t u : DataType) → same_type t u ≡ true → t ≡ u
same_type→eq t u h = ground arith

subtypes-has :
    (t : DataType) (ts us : List DataType)
    → subtypes ts us ≡ true
    → has t ts ≡ true
    → has t us || (same_type t integer_type && has number_type us) ≡ true
subtypes-has t [] us sub h = cc
subtypes-has t (x ∷ ts) us sub h = elim (Bool-cases (same_type t x)) [
  | inl here ↦ rw (same_type→eq t x here) (both sub).0
  | inr there ↦ subtypes-has t ts us (both sub).1 (rw there at h)
]

-- A union of a data type and null is not both an array and an object.
pub array_no_object :
    (ts : List DataType)
    → valid_union ts ≡ true
    → has array_type ts ≡ true
    → has object_type ts ≡ false
array_no_object [] h a = cc
array_no_object (t ∷ []) h a = ground arith
array_no_object (t ∷ u ∷ []) h a = ground arith
array_no_object (t ∷ u ∷ v ∷ ts) h a = cc

all-listed :
    (p : String → Bool) (names : List String) (k : String)
    → all p names ≡ true
    → listed names k ≡ true
    → p k ≡ true
all-listed p [] k h l = cc
all-listed p (n ∷ ns) k h l = elim (Bool-cases (str_eq n k)) [
  | inl here ↦ subst (λ x. p x ≡ true) ((eq_iff n k).0 here) (both h).0
  | inr there ↦ all-listed p ns k (both h).1 (rw there at l)
]

all-subset :
    (p : String → Bool) (names wanted : List String)
    → all p names ≡ true
    → all (listed names) wanted ≡ true
    → all p wanted ≡ true
all-subset p names [] h l = refl
all-subset p names (k ∷ ks) h l = ground (
  arith,
  all-listed p names k h (both {a = listed names k} l).0,
  all-subset p names ks h (both {a = listed names k} l).1,
)

-- A declared property has a compatible one of the same name.
compatible-property_at :
    (k : String) (ps qs : Properties) {s : DataSchema}
    → compatible_properties ps qs ≡ true
    → property_at k ps ≡ some s
    → (t : DataSchema) × (property_at k qs ≡ some t) × (compatible s t ≡ true)
unfolding compatible
compatible-property_at k no_properties qs c h = absurd (ground arith)
compatible-property_at k (property j s rest) qs c h = elim (Option-cases (property_at j qs)) [
  | inl undeclared ↦ absurd (false≢true (rw undeclared at c))
  | inr (t, declared) ↦
      let parts = both {a = compatible s t} (rw declared at c) in
      elim (Bool-cases (str_eq j k)) [
        | inl here ↦ (
          t,
          rw (sym ((eq_iff j k).0 here)) declared,
          subst (λ x. compatible x t ≡ true) (some_inj (rw here at h)) parts.0,
        )
        | inr there ↦ compatible-property_at k rest qs parts.1 (rw there at h)
      ]
]

pub well_formed-property_at :
    (k : String) (ps : Properties) {s : DataSchema}
    → well_formed_properties ps ≡ true
    → property_at k ps ≡ some s
    → well_formed s ≡ true
unfolding well_formed
well_formed-property_at k no_properties w h = absurd (ground arith)
well_formed-property_at k (property j s rest) w h = elim (Bool-cases (str_eq j k)) [
  | inl here ↦
      subst (λ x. well_formed x ≡ true) (some_inj (rw here at h)) (both {a = well_formed s} w).0
  | inr there ↦ well_formed-property_at k rest (both {a = well_formed s} w).1 (rw there at h)
]

pub well_formed_parts :
    (ts : List DataType) (ps : Properties) (r : List String) (it : ItemSchema)
    → well_formed (schema ts ps r it) ≡ true
    → (valid_union ts ≡ true) × (well_formed_properties ps ≡ true) × (well_formed_items it ≡ true)
unfolding well_formed
well_formed_parts ts ps r it w = parts _ _ _ _ _ _ _ w
  where
    parts :
        (a b c d e f g : Bool)
        → (a && b && c && d && e) && f && g ≡ true
        → (a ≡ true) × (f ≡ true) × (g ≡ true)
    parts a b c d e f g h = ground arith

module _ (finite : Float → Bool) where
  abbrev Valid : Json → DataSchema → Type 0
  Valid v s = validate_data finite v s ≡ true

  mutual
    unfolding validate_data compatible well_formed valid_shape

    sound :
        (v : Json) (a e : DataSchema)
        → well_formed a ≡ true
        → compatible a e ≡ true
        → Valid v a
        → Valid v e
    sound null (schema ts ps r it) (schema us qs q jt) w c h =
        ground (arith, subtypes-has null_type ts us (both c).0 h)
    sound (boolean b) (schema ts ps r it) (schema us qs q jt) w c h =
        ground (arith, subtypes-has boolean_type ts us (both c).0 h)
    sound (integer n) (schema ts ps r it) (schema us qs q jt) w c h = ground (
      arith,
      subtypes-has integer_type ts us (both c).0,
      subtypes-has number_type ts us (both c).0,
    )
    sound (number x) (schema ts ps r it) (schema us qs q jt) w c h =
        ground (arith, subtypes-has number_type ts us (both c).0 (both h).0)
    sound (string s) (schema ts ps r it) (schema us qs q jt) w c h =
        ground (arith, subtypes-has string_type ts us (both c).0 h)
    sound (array xs) (schema ts ps r it) (schema us qs q jt) w c h =
        let parts = well_formed_parts ts ps r it w in
        let both_valid = both {a = has array_type ts} h in
        let plain = array_no_object ts parts.0 both_valid.0 in
        ground (
          arith,
          subtypes-has array_type ts us (both {a = subtypes ts us} c).0 both_valid.0,
          sound_items xs it jt parts.2 (rw (plain, both_valid.0) at (both {a = subtypes ts us} c).1)
              both_valid.1,
        )
    sound (object fs) (schema ts ps r it) (schema us qs q jt) w c h =
        let parts = both3 (has object_type ts) (all (λ k. has_key k fs) r) _ h in
        let compat = both {a = subtypes ts us} c in
        let inner = both {a = all (listed r) q} (rw parts.0 at compat.1) in
        ground (
          arith,
          subtypes-has object_type ts us compat.0 parts.0,
          all-subset (λ k. has_key k fs) r q parts.1 inner.0,
          sound_fields fs ps qs (well_formed_parts ts ps r it w).1 inner.1 parts.2,
        )

    sound_items :
        (xs : Items) (it jt : ItemSchema)
        → well_formed_items it ≡ true
        → compatible_items it jt ≡ true
        → validate_items finite xs it ≡ true
        → validate_items finite xs jt ≡ true
    sound_items nil it jt w c h = refl
    sound_items (cons x xs) no_items jt w c h = cc
    sound_items (cons x xs) (items_of s) no_items w c h = cc
    sound_items (cons x xs) (items_of s) (items_of t) w c h =
        let parts = both {a = validate_data finite x s} h in
        ground
          (arith, sound x s t w c parts.0, sound_items xs (items_of s) (items_of t) w c parts.1)

    sound_fields :
        (fs : Fields) (ps qs : Properties)
        → well_formed_properties ps ≡ true
        → compatible_properties ps qs ≡ true
        → validate_fields finite fs ps ≡ true
        → validate_fields finite fs qs ≡ true
    sound_fields end ps qs w c h = refl
    sound_fields (field k v rest) ps qs w c h = elim (Option-cases (property_at k ps)) [
      | inl undeclared ↦ absurd (false≢true (rw undeclared at h))
      | inr (s, declared) ↦
          let parts = both {a = validate_data finite v s} (rw declared at h) in
          let (t, wanted, fits) = compatible-property_at k ps qs c declared in
          rw wanted (
            ground (
              arith,
              sound v s t (well_formed-property_at k ps w declared) fits parts.0,
              sound_fields rest ps qs w c parts.1,
            ))
    ]

  -- A value of a schema is a value of every schema that it is compatible with. (The actual schema has
  -- passed its validators.)
  pub compatible-validate_data :
      (v : Json) (actual expected : DataSchema)
      → well_formed actual ≡ true
      → compatible actual expected ≡ true
      → validate_data finite v actual ≡ true
      → validate_data finite v expected ≡ true
  compatible-validate_data = sound
