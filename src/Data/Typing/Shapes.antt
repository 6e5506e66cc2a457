-- ===== src/Data/Typing/Shapes.antt =====
-- How the values of a schema follow its data types, its null and its parts.
use mathlib.Core.Bool.{false≢true}
use agentops_workflow_platfo.Base.{
  both, String, ◌≡◌, refl, sym, ap, subst, Bool, true, false, ◌&&◌, ◌||◌, Option, none, some, List,
  [], ◌∷◌, all, arith, Bool-cases, ◌⊎◌, inl, inr, is_some,
}
use agentops_workflow_platfo.Base.Float.{Float}
use agentops_workflow_platfo.Data.Json.{Json, null, boolean, integer, number, string, array, object}
use agentops_workflow_platfo.Data.Schema.{
  DataType, object_type, array_type, string_type, integer_type, number_type, boolean_type,
  null_type, same_type, DataSchema, Properties, ItemSchema, schema, no_properties, no_items, has,
  types, well_formed, valid_shape, valid_union, validate_data,
}
use agentops_workflow_platfo.Data.Compatible.Sound.{some_inj, same_type→eq, well_formed_parts}
use agentops_workflow_platfo.Data.Typing.{with_null, nullable, first_data, retyped}

abbrev pub not_null : Json → Bool
not_null null = false
not_null _ = true

pub all-has :
    (p : DataType → Bool) (t : DataType) (ts : List DataType)
    → all p ts ≡ true
    → has t ts ≡ true
    → p t ≡ true
all-has p t [] h i = absurd (false≢true i)
all-has p t (u ∷ ts) h i = elim (Bool-cases (same_type t u)) [
  | inl here ↦ rw (same_type→eq t u here) (both h).0
  | inr there ↦ all-has p t ts (both h).1 (rw there at i)
]

type_inj : {t u : DataType} → some t ≡ some u → t ≡ u
type_inj h = ground arith

left_of : (a b : Bool) → b ≡ false → a || (b || false) ≡ true → a || false ≡ true
left_of a b h k = ground arith

right_of : (a b : Bool) → a ≡ false → a || b ≡ true → b ≡ true
right_of a b h k = ground arith

second_null : (a b c : Bool) → b ≡ false → a && (b || c) ≡ true → c ≡ true
second_null a b c h k = ground arith

same_type_refl : (t : DataType) → same_type t t ≡ true
same_type_refl t = ground arith

right_true : (a b : Bool) → b ≡ true → a || b ≡ true
right_true a b h = ground arith

only_one : (a : Bool) → a || false ≡ true → a ≡ true
only_one a h = ground arith

first_data-has :
    (ts : List DataType) (t : DataType)
    → valid_union ts ≡ true
    → first_data ts ≡ some t
    → (u : DataType) → same_type u null_type ≡ false
    → has u ts ≡ true
    → has u (t ∷ []) ≡ true
first_data-has [] t v f u n h = absurd (false≢true v)
first_data-has (a ∷ []) t v f u n h = elim (Bool-cases (same_type a null_type)) [
  | inl z ↦ absurd (false≢true (ap is_some (rw z at f)))
  | inr d ↦ subst (λ x. has u (x ∷ []) ≡ true) (type_inj (rw d at f)) h
]
first_data-has (a ∷ b ∷ []) t v f u n h = elim (Bool-cases (same_type a null_type)) [
  | inl z ↦
      let is_null : a ≡ null_type = same_type→eq a null_type z in
      first_data-has (b ∷ []) t refl (rw z at f) u n (right_of _ _ (rw is_null n) h)
  | inr d ↦
      let other : b ≡ null_type = same_type→eq b null_type (second_null _ _ _ d v) in
      subst (λ x. has u (x ∷ []) ≡ true) (type_inj (rw d at f))
        (left_of (same_type u a) (same_type u b) (rw other n) h)
]
first_data-has (a ∷ b ∷ c ∷ ts) t v f u n h = absurd (false≢true v)

first_data-mem :
    (ts : List DataType) (t : DataType)
    → first_data ts ≡ some t
    → (has t ts ≡ true) × (same_type t null_type ≡ false)
first_data-mem [] t h = absurd (false≢true (ap is_some h))
first_data-mem (a ∷ ts) t h = elim (Bool-cases (same_type a null_type)) [
  | inl z ↦
      let rest = first_data-mem ts t (rw z at h) in
      (right_true (same_type t a) (has t ts) rest.0, rest.1)
  | inr d ↦
      let is_t : a ≡ t = type_inj (rw d at h) in
      (rw is_t (ground (arith, same_type_refl t)), rw is_t at d)
]

iff-eq : (a b : Bool) → (a ≡ true → b ≡ true) → (b ≡ true → a ≡ true) → a ≡ b
iff-eq true b f g = sym (f refl)
iff-eq false true f g = g refl
iff-eq false false f g = refl

-- The first data type stands for all but null.
first_data-same :
    (ts : List DataType) (t : DataType) (u : DataType)
    → valid_union ts ≡ true
    → first_data ts ≡ some t
    → same_type u null_type ≡ false
    → has u (t ∷ []) ≡ has u ts
first_data-same ts t u v f n =
    iff-eq _ _
      (λ h. let is_t : u ≡ t = same_type→eq u t (only_one _ h) in rw is_t (first_data-mem ts t f).0)
      (first_data-has ts t v f u n)

new_first :
    (a a' b c d e f g : Bool)
    → a' ≡ true
    → (a && b && c && d && e) && f && g ≡ true
    → (a' && b && c && d && e) && f && g ≡ true
new_first a a' b c d e f g v h = ground arith

retype-formed :
    (ts us : List DataType) (ps : Properties) (r : List String) (it : ItemSchema)
    → valid_union us ≡ true
    → has object_type us ≡ has object_type ts
    → has array_type us ≡ has array_type ts
    → well_formed (schema ts ps r it) ≡ true
    → well_formed (schema us ps r it) ≡ true
unfolding well_formed valid_shape
retype-formed ts us ps r it v o a w = rw o (rw a (new_first _ _ _ _ _ _ _ _ v w))

with_null-union : (ts : List DataType) → valid_union ts ≡ true → valid_union (with_null ts) ≡ true
with_null-union [] v = absurd (false≢true v)
with_null-union (t ∷ []) v = ground arith
with_null-union (t ∷ u ∷ []) v = ground arith
with_null-union (t ∷ u ∷ x ∷ ts) v = absurd (false≢true v)

pub nullable-formed : (s : DataSchema) → well_formed s ≡ true → well_formed (nullable s) ≡ true
nullable-formed (schema ts ps r it) w =
    retype-formed ts (with_null ts) ps r it (with_null-union ts (well_formed_parts ts ps r it w).0)
      (ground arith) (ground arith) w

pub retyped-formed :
    (s f : DataSchema)
    → well_formed s ≡ true
    → retyped s (first_data (types s)) ≡ some f
    → well_formed f ≡ true
retyped-formed (schema ts ps r it) f w e = retyped_as (first_data ts) refl e
  where
    retyped_as :
        (o : Option DataType)
        → first_data ts ≡ o
        → retyped (schema ts ps r it) o ≡ some f
        → well_formed f ≡ true
    retyped_as none _ k = absurd (false≢true (ap is_some k))
    retyped_as (some t) q k =
        let same_types = λ (u : DataType) (n : same_type u null_type ≡ false).
          first_data-same ts t u (well_formed_parts ts ps r it w).0 q n in
        subst (λ x. well_formed x ≡ true) (some_inj k)
          (retype-formed ts (t ∷ []) ps r it refl (same_types object_type refl)
            (same_types array_type refl) w)

pub plain-formed :
    (t : DataType)
    → has t (object_type ∷ array_type ∷ []) ≡ false
    → well_formed (schema (t ∷ []) no_properties [] no_items) ≡ true
unfolding well_formed valid_shape
plain-formed t h = ground arith

pub null-cases : (v : Json) → (v ≡ null) ⊎ (not_null v ≡ true)
null-cases null = inl refl
null-cases (boolean b) = inr refl
null-cases (integer n) = inr refl
null-cases (number x) = inr refl
null-cases (string t) = inr refl
null-cases (array xs) = inr refl
null-cases (object fs) = inr refl

module _ (finite : Float → Bool) where
  abbrev Valid : Json → DataSchema → Type 0
  Valid v s = validate_data finite v s ≡ true

  -- Another list of data types that has all but null of the first.
  pub retype-Valid :
      (v : Json) (ts us : List DataType) (ps : Properties) (r : List String) (it : ItemSchema)
      → ((t : DataType) → same_type t null_type ≡ false → has t ts ≡ true → has t us ≡ true)
      → not_null v ≡ true
      → Valid v (schema ts ps r it)
      → Valid v (schema us ps r it)
  unfolding validate_data
  retype-Valid null ts us ps r it k n h = absurd (false≢true n)
  retype-Valid (boolean b) ts us ps r it k n h = k boolean_type refl h
  retype-Valid (integer i) ts us ps r it k n h =
      ground (arith, k integer_type refl, k number_type refl)
  retype-Valid (number x) ts us ps r it k n h = ground (arith, k number_type refl)
  retype-Valid (string s) ts us ps r it k n h = k string_type refl h
  retype-Valid (array xs) ts us ps r it k n h = ground (arith, k array_type refl)
  retype-Valid (object fs) ts us ps r it k n h = ground (arith, k object_type refl)

  pub null-Valid : (s : DataSchema) → Valid null s → has null_type (types s) ≡ true
  unfolding validate_data
  null-Valid (schema ts ps r it) h = h

  pub null-nullable : (s : DataSchema) → Valid null (nullable s)
  unfolding validate_data
  null-nullable (schema ts ps r it) = ground arith

  pub nullable-Valid : (v : Json) (s : DataSchema) → Valid v s → Valid v (nullable s)
  nullable-Valid v (schema ts ps r it) h = elim (null-cases v) [
    | inl z ↦ rw z (null-nullable (schema ts ps r it))
    | inr n ↦ retype-Valid v ts (with_null ts) ps r it (λ t a b. ground arith) n h
  ]

  -- A value that is not null stays a value when null is left out of the types.
  pub unnullable-Valid :
      (v : Json) (s : DataSchema) → not_null v ≡ true → Valid v (nullable s) → Valid v s
  unnullable-Valid v (schema ts ps r it) n h =
      retype-Valid v (with_null ts) ts ps r it (λ t a b. ground arith) n h

  -- The value of a schema is null, or one of the schema with the data type alone.
  pub retyped-Valid :
      (v : Json) (s f : DataSchema)
      → well_formed s ≡ true
      → retyped s (first_data (types s)) ≡ some f
      → not_null v ≡ true
      → Valid v s
      → Valid v f
  retyped-Valid v (schema ts ps r it) f w e n h = retyped_as (first_data ts) refl e
    where
      retyped_as :
          (o : Option DataType)
          → first_data ts ≡ o
          → retyped (schema ts ps r it) o ≡ some f
          → Valid v f
      retyped_as none _ k = absurd (false≢true (ap is_some k))
      retyped_as (some t) q k = subst (Valid v) (some_inj k) (
          retype-Valid v ts (t ∷ []) ps r it
            (first_data-has ts t (well_formed_parts ts ps r it w).0 q) n h)
