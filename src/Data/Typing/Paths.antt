-- ===== src/Data/Typing/Paths.antt =====
-- What a path finds in a value is a value of what it finds in the schema.
use mathlib.Core.Bool.{false≢true}
use agentops_workflow_platfo.Base.{
  both, ℕ, zero, suc, String, str_eq, eq_iff, ◌≡◌, refl, sym, ap, ◌∙◌, subst, Bool, true, ◌&&◌,
  none, some, List, [], ◌∷◌, all, arith, Bool-cases, Option-cases, inl, inr, is_some,
}
use agentops_workflow_platfo.Base.Float.{Float}
use agentops_workflow_platfo.Data.Json.{
  Json, Items, Fields, null, boolean, integer, number, string, array, object, nil, cons, end, field,
  has_key, get, item,
}
use agentops_workflow_platfo.Data.Schema.{
  object_type, array_type, DataSchema, Properties, ItemSchema, schema, no_items, items_of, has,
  property_at, well_formed, well_formed_items, validate_data, validate_items, validate_fields,
}
use agentops_workflow_platfo.Data.Expression.{Key, name, index, step, walk}
use agentops_workflow_platfo.Data.Compatible.Sound.{
  some_inj, well_formed_parts, well_formed-property_at,
}
use agentops_workflow_platfo.Data.Typing.{step_schema, item_schema, walk_schema}

json_inj : {u v : Json} → some u ≡ some v → u ≡ v
json_inj h = ground arith

third : (a b c : Bool) → a && b && c ≡ true → c ≡ true
third a b c h = ground arith

pub walk-none : (ks : List Key) → walk ks none ≡ none
walk-none [] = refl
walk-none (k ∷ ks) = refl

pub walk_schema-none : (ks : List Key) → walk_schema ks none ≡ none
walk_schema-none [] = refl
walk_schema-none (k ∷ ks) = refl

module _ (finite : Float → Bool) where
  abbrev Valid : Json → DataSchema → Type 0
  Valid v s = validate_data finite v s ≡ true

  get-Valid :
      (k : String) (fs : Fields) (ps : Properties) (u : Json) (t : DataSchema)
      → get k fs ≡ some u
      → property_at k ps ≡ some t
      → validate_fields finite fs ps ≡ true
      → Valid u t
  unfolding validate_data
  get-Valid k end ps u t g p h = absurd (false≢true (ap is_some g))
  get-Valid k (field j v rest) ps u t g p h = elim (Bool-cases (str_eq j k)) [
    | inl here ↦
        let declared : property_at j ps ≡ some t = rw (sym ((eq_iff j k).0 here)) at p in
        subst (λ x. Valid x t) (json_inj (rw here at g))
          (both {a = validate_data finite v t} (rw declared at h)).0
    | inr there ↦
        get-Valid k rest ps u t (rw there at g) p (both {b = validate_fields finite rest ps} h).1
  ]

  item-Valid :
      (i : ℕ) (xs : Items) (u : Json) (t : DataSchema)
      → item i xs ≡ some u
      → validate_items finite xs (items_of t) ≡ true
      → Valid u t
  unfolding validate_data
  item-Valid i nil u t g h = absurd (ground (arith, g))
  item-Valid zero (cons x xs) u t g h =
      subst (λ x. Valid x t) (json_inj g) (both {a = validate_data finite x t} h).0
  item-Valid (suc i) (cons x xs) u t g h =
      item-Valid i xs u t g (both {a = validate_data finite x t} h).1

  -- What a key finds in a value is a value of what it finds in the schema.
  step-Valid :
      (k : Key) (v u : Json) (s t : DataSchema)
      → step k v ≡ some u
      → step_schema k s ≡ some t
      → Valid v s
      → Valid u t
  unfolding validate_data
  step-Valid (name k) (object fs) u (schema ts ps r it) t g p h =
      elim (Bool-cases (has object_type ts)) [
        | inl o ↦
            get-Valid k fs ps u t g (rw o at p)
              (third (has object_type ts) (all (λ j. has_key j fs) r) _ h)
        | inr n ↦ absurd (false≢true (ap is_some (rw n at p)))
      ]
  step-Valid (name k) null u s t g p h = absurd (false≢true (ap is_some g))
  step-Valid (name k) (boolean b) u s t g p h = absurd (false≢true (ap is_some g))
  step-Valid (name k) (integer n) u s t g p h = absurd (false≢true (ap is_some g))
  step-Valid (name k) (number x) u s t g p h = absurd (false≢true (ap is_some g))
  step-Valid (name k) (string x) u s t g p h = absurd (false≢true (ap is_some g))
  step-Valid (name k) (array xs) u s t g p h = absurd (false≢true (ap is_some g))
  step-Valid (index i) (array xs) u (schema ts ps r it) t g p h =
      elim (Bool-cases (has array_type ts)) [
        | inl a ↦ items_at it (rw a at p) (both {a = has array_type ts} h).1
        | inr n ↦ absurd (false≢true (ap is_some (rw n at p)))
      ]
    where
      items_at :
          (it : ItemSchema)
          → item_schema it ≡ some t
          → validate_items finite xs it ≡ true
          → Valid u t
      items_at no_items q j = absurd (false≢true (ap is_some q))
      items_at (items_of x) q j =
          item-Valid i xs u t g
            (subst (λ y. validate_items finite xs (items_of y) ≡ true) (some_inj q) j)
  step-Valid (index i) null u s t g p h = absurd (false≢true (ap is_some g))
  step-Valid (index i) (boolean b) u s t g p h = absurd (false≢true (ap is_some g))
  step-Valid (index i) (integer n) u s t g p h = absurd (false≢true (ap is_some g))
  step-Valid (index i) (number x) u s t g p h = absurd (false≢true (ap is_some g))
  step-Valid (index i) (string x) u s t g p h = absurd (false≢true (ap is_some g))
  step-Valid (index i) (object fs) u s t g p h = absurd (false≢true (ap is_some g))

  pub walk-Valid :
      (ks : List Key) (v : Json) (s : DataSchema) (u : Json) (t : DataSchema)
      → Valid v s
      → walk ks (some v) ≡ some u
      → walk_schema ks (some s) ≡ some t
      → Valid u t
  walk-Valid [] v s u t h g p =
      subst (λ y. Valid u y) (some_inj p) (subst (λ x. Valid x s) (json_inj g) h)
  walk-Valid (k ∷ ks) v s u t h g p = elim (Option-cases (step k v)) [
    | inl gone ↦ absurd (false≢true (ap is_some (sym (walk-none ks) ∙ rw gone at g)))
    | inr (v', found) ↦ elim (Option-cases (step_schema k s)) [
      | inl gone ↦ absurd (false≢true (ap is_some (sym (walk_schema-none ks) ∙ rw gone at p)))
      | inr (s', declared) ↦
          walk-Valid ks v' s' u t (step-Valid k v v' s s' found declared h) (rw found at g)
            (rw declared at p)
    ]
  ]

item_schema-formed :
    (it : ItemSchema) (t : DataSchema)
    → item_schema it ≡ some t
    → well_formed_items it ≡ true
    → well_formed t ≡ true
unfolding well_formed
item_schema-formed no_items t p w = absurd (false≢true (ap is_some p))
item_schema-formed (items_of s) t p w = subst (λ x. well_formed x ≡ true) (some_inj p) w

step-formed :
    (k : Key) (s t : DataSchema)
    → step_schema k s ≡ some t
    → well_formed s ≡ true
    → well_formed t ≡ true
step-formed (name k) (schema ts ps r it) t p w = elim (Bool-cases (has object_type ts)) [
  | inl o ↦ well_formed-property_at k ps (well_formed_parts ts ps r it w).1 (rw o at p)
  | inr n ↦ absurd (false≢true (ap is_some (rw n at p)))
]
step-formed (index i) (schema ts ps r it) t p w = elim (Bool-cases (has array_type ts)) [
  | inl a ↦ item_schema-formed it t (rw a at p) (well_formed_parts ts ps r it w).2
  | inr n ↦ absurd (false≢true (ap is_some (rw n at p)))
]

pub walk-formed :
    (ks : List Key) (s t : DataSchema)
    → walk_schema ks (some s) ≡ some t
    → well_formed s ≡ true
    → well_formed t ≡ true
walk-formed [] s t p w = subst (λ x. well_formed x ≡ true) (some_inj p) w
walk-formed (k ∷ ks) s t p w = elim (Option-cases (step_schema k s)) [
  | inl gone ↦ absurd (false≢true (ap is_some (sym (walk_schema-none ks) ∙ rw gone at p)))
  | inr (s', declared) ↦ walk-formed ks s' t (rw declared at p) (step-formed k s s' declared w)
]
