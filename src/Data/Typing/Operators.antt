-- ===== src/Data/Typing/Operators.antt =====
-- Operators on typed operands: what `binary_schema` accepts is computed to a value of the
-- schema, or stops because an operand is missing or a number out of range.
use mathlib.Core.Bool.{false≢true}
use agentops_workflow_platfo.Base.{
  both, ◌≡◌, refl, sym, ap, ◌∙◌, subst, Bool, true, false, ◌&&◌, ◌||◌, none, some, arith,
  Bool-cases, Option-cases, inl, inr, if◌then◌else◌, is_some,
}
use agentops_workflow_platfo.Data.Json.{Json, null, boolean, integer, number, string, array, object}
use agentops_workflow_platfo.Data.Schema.{
  string_type, boolean_type, null_type, DataSchema, has, types, well_formed, validate_data,
}
use agentops_workflow_platfo.Data.Expression.{
  Binary, eq, ne, gt, gte, lt, lte, and, or, add, subtract, multiply, concat, coalesce, Outcome,
  value, Python, check_finite, compute, order, operate, early, combine, truthy, as_number,
}
use agentops_workflow_platfo.Data.Compatible.{compatible}
use agentops_workflow_platfo.Data.Compatible.Sound.{some_inj, compatible-validate_data}
use agentops_workflow_platfo.Data.Typing.{
  plain, only, numeric, given, nullable, retyped, first_data, coalesced, binary_schema,
}
use agentops_workflow_platfo.Data.Typing.Shapes.{
  not_null, null-cases, null-Valid, nullable-Valid, unnullable-Valid, retyped-Valid,
}
use agentops_workflow_platfo.Data.Typing.Operations.{
  Safe, returns, numeric-IsNumber, only-kind, boolean-inv, string-inv, null-inv, Is, result_type,
  arithmetic-Safe, truth, order-Safe, lazy-Safe, strict-Safe, valid-Safe,
}

pub json_inj : {u v : Json} → some u ≡ some v → u ≡ v
json_inj h = ground arith

pub given-some : (test : Bool) (s r : DataSchema) → given test s ≡ some r → (test ≡ true) × (s ≡ r)
given-some true s r h = (refl, some_inj h)
given-some false s r h = absurd (false≢true (ap is_some h))

early-coalesce-some :
    (py : Python) (v u : Json) → early py coalesce v ≡ some u → (not_null v ≡ true) × (v ≡ u)
unfolding early
early-coalesce-some py null u q = absurd (false≢true (ap is_some q))
early-coalesce-some py (boolean b) u q = (refl, ground (arith, q))
early-coalesce-some py (integer b) u q = (refl, ground (arith, q))
early-coalesce-some py (number b) u q = (refl, ground (arith, q))
early-coalesce-some py (string b) u q = (refl, ground (arith, q))
early-coalesce-some py (array b) u q = (refl, ground (arith, q))
early-coalesce-some py (object b) u q = (refl, ground (arith, q))

module _ (py : Python) (s t : DataSchema) {a b : Outcome} (left : Safe (Is py s) a)
    (right : Safe (Is py t) b) where
  abbrev numbers : Bool
  numbers = numeric (types s) && numeric (types t)

  abbrev strings : Bool
  strings = only string_type (types s) && only string_type (types t)

  arithmetic :
      (op : Binary)
      → ((v : Json) → early py op v ≡ none)
      → ((v w : Json) → operate py op v w ≡ compute py op (as_number v) (as_number w))
      → numbers ≡ true
      → Safe (Is py (plain (result_type py s t))) (combine py op a b)
  arithmetic op e o n = strict-Safe py op e left right λ v w h k. rw (o v w) (
      arithmetic-Safe py op s t v w (numeric-IsNumber py.finite v s (both n).0 h)
        (numeric-IsNumber py.finite w t (both {a = numeric (types s)} n).1 k) h k)

  ordering :
      (op : Binary)
      → ((v : Json) → early py op v ≡ none)
      → ((v w : Json) → operate py op v w ≡ order py op (as_number v) (as_number w))
      → numbers || strings ≡ true
      → Safe (Is py (plain boolean_type)) (combine py op a b)
  unfolding order
  ordering op e o n = strict-Safe py op e left right λ v w h k. rw (o v w) (compared v w h k)
    where
      compared :
          (v w : Json)
          → Is py s v
          → Is py t w
          → Safe
              (Is py (plain boolean_type))
              (check_finite py (order py op (as_number v) (as_number w)))
      compared v w h k = elim (Bool-cases numbers) [
        | inl yes_numbers ↦
            order-Safe py op v w (numeric-IsNumber py.finite v s (both yes_numbers).0 h)
              (numeric-IsNumber py.finite w t (both {a = numeric (types s)} yes_numbers).1 k)
        | inr no_numbers ↦
            let texts : strings ≡ true = rw no_numbers at n in
            let (x, is_x) =
              string-inv py.finite v (only-kind py.finite v s string_type (both texts).0 h refl) in
            let (y, is_y) = string-inv py.finite w (
              only-kind py.finite w t string_type (both {a = only string_type (types s)} texts).1 k
                refl) in
            rw is_x (rw is_y (returns (truth py _)))
      ]

  joining : strings ≡ true → Safe (Is py (plain string_type)) (combine py concat a b)
  unfolding operate early compute validate_data
  joining n =
      strict-Safe py concat (λ v. refl) left right
        λ v w h k.
          let (x, is_x) =
            string-inv py.finite v (only-kind py.finite v s string_type (both n).0 h refl) in
          let (y, is_y) = string-inv py.finite w (
            only-kind py.finite w t string_type (both {a = only string_type (types s)} n).1 k
              refl) in
          rw is_x (rw is_y (returns refl))

  abbrev booleans : Bool
  booleans = only boolean_type (types s) && only boolean_type (types t)

  logical :
      (op : Binary)
      → ((b : Bool) (u : Json) → early py op (boolean b) ≡ some u → Is py (plain boolean_type) u)
      → ((v w : Json) → operate py op v w ≡ value (boolean (truthy py w)))
      → booleans ≡ true
      → Safe (Is py (plain boolean_type)) (combine py op a b)
  logical op e o n =
      lazy-Safe py op left right
        (λ v h u q.
          let (x, is_x) =
            boolean-inv py.finite v (only-kind py.finite v s boolean_type (both n).0 h refl) in
          e x u (rw is_x at q))
        (λ v w h _ k. rw (o v w) (returns (truth py _)))

  equality :
      (op : Binary) (f : Json → Json → Bool)
      → ((v : Json) → early py op v ≡ none)
      → ((v w : Json) → operate py op v w ≡ value (boolean (f v w)))
      → Safe (Is py (plain boolean_type)) (combine py op a b)
  equality op f e o = strict-Safe py op e left right λ v w h k. rw (o v w) (returns (truth py _))

  module _ (s_formed : well_formed s ≡ true) (t_formed : well_formed t ≡ true) where
    widened :
        (v : Json) (f r : DataSchema) (test : Bool)
        → (if test then nullable f else f) ≡ r
        → Is py f v
        → Is py r v
    widened v f r true e h = subst (λ x. Is py x v) e (nullable-Valid py.finite v f h)
    widened v f r false e h = subst (λ x. Is py x v) e h

    given_type :
        (f r : DataSchema)
        → coalesced (some f) t ≡ some r
        → compatible t (nullable f) ≡ true
        → (if has null_type (types t) then nullable f else f) ≡ r
    given_type f r h c = some_inj (rw c at h)

    -- The second operand stands for the whole where the first one is null.
    second :
        (w : Json) (f r : DataSchema)
        → compatible t (nullable f) ≡ true
        → (if has null_type (types t) then nullable f else f) ≡ r
        → Is py t w
        → Is py r w
    second w f r c e k =
        let wide : Is py (nullable f) w =
          compatible-validate_data py.finite w t (nullable f) t_formed c k in
        elim (Bool-cases (has null_type (types t))) [
          | inl y ↦ subst (λ x. Is py x w) (rw y at e) wide
          | inr n ↦ elim (null-cases w) [
            | inl z ↦ absurd (false≢true (sym n ∙ null-Valid py.finite t (subst (Is py t) z k)))
            | inr nn ↦ subst (λ x. Is py x w) (rw n at e) (unnullable-Valid py.finite w f nn wide)
          ]
        ]

    -- The first operand is null.
    coalesce_null : only null_type (types s) ≡ true → Safe (Is py t) (combine py coalesce a b)
    unfolding operate early
    coalesce_null n =
        lazy-Safe py coalesce left right
          (λ v h u q.
            let is_null = null-inv py.finite v (only-kind py.finite v s null_type n h refl) in
            absurd (false≢true (ap is_some (rw is_null at q))))
          (λ v w h _ k. valid-Safe py w t (Is py t) k k)

    coalesce_first :
        (f r : DataSchema)
        → retyped s (first_data (types s)) ≡ some f
        → coalesced (some f) t ≡ some r
        → Safe (Is py r) (combine py coalesce a b)
    unfolding operate early
    coalesce_first f r is_first h = elim (Bool-cases (compatible t (nullable f))) [
      | inr n ↦ absurd (false≢true (ap is_some (rw n at h)))
      | inl c ↦
          let is_r = given_type f r h c in
          lazy-Safe py coalesce left right
            (λ v h' u q.
              let (nn, same) = early-coalesce-some py v u q in
              subst (Is py r) same (
                widened v f r (has null_type (types t)) is_r
                  (retyped-Valid py.finite v s f s_formed is_first nn h')))
            (λ v w h' q k. valid-Safe py w t (Is py r) k (second w f r c is_r k))
    ]

early_and :
    (py : Python) (b : Bool) (u : Json)
    → early py and (boolean b) ≡ some u
    → Is py (plain boolean_type) u
unfolding early truthy validate_data
early_and py true u q = absurd (false≢true (ap is_some q))
early_and py false u q = subst (Is py (plain boolean_type)) (json_inj q) refl

early_or :
    (py : Python) (b : Bool) (u : Json)
    → early py or (boolean b) ≡ some u
    → Is py (plain boolean_type) u
unfolding early truthy validate_data
early_or py false u q = absurd (false≢true (ap is_some q))
early_or py true u q = subst (Is py (plain boolean_type)) (json_inj q) refl

-- An operator whose operands have to pass a test.
pub through :
    (P : DataSchema → Type 0) (test : Bool) (s r : DataSchema)
    → given test s ≡ some r
    → (test ≡ true → P s)
    → P r
through P test s r e k = let (ok, is_r) = given-some test s r e in subst P is_r (k ok)

coalesce-Safe :
    (py : Python) (s t r : DataSchema) {a b : Outcome}
    → well_formed s ≡ true
    → well_formed t ≡ true
    → binary_schema coalesce s t ≡ some r
    → Safe (Is py s) a
    → Safe (Is py t) b
    → Safe (Is py r) (combine py coalesce a b)
unfolding binary_schema
coalesce-Safe py s t r {a} {b} sf tf e left right = elim (Bool-cases (only null_type (types s))) [
  | inl n ↦
      subst (λ x. Safe (Is py x) (combine py coalesce a b)) (some_inj (rw n at e))
        (coalesce_null py s t left right sf tf n)
  | inr m ↦ elim (Option-cases (retyped s (first_data (types s)))) [
    | inl z ↦ absurd (false≢true (ap is_some (rw z at (rw m at e))))
    | inr (f, first) ↦ coalesce_first py s t left right sf tf f r first (rw first at (rw m at e))
  ]
]

-- An operation on operands of their types gives a value of its type, or an error that types do not
-- exclude.
pub binary-Safe :
    (py : Python) (op : Binary) (s t r : DataSchema) {a b : Outcome}
    → well_formed s ≡ true
    → well_formed t ≡ true
    → binary_schema op s t ≡ some r
    → Safe (Is py s) a
    → Safe (Is py t) b
    → Safe (Is py r) (combine py op a b)
unfolding binary_schema operate early
binary-Safe py eq s t r {a} {b} sf tf e left right =
    through (λ x. Safe (Is py x) (combine py eq a b)) true (plain boolean_type) r e
      λ _. equality py s t left right eq _ (λ v. refl) (λ v w. refl)
binary-Safe py ne s t r {a} {b} sf tf e left right =
    through (λ x. Safe (Is py x) (combine py ne a b)) true (plain boolean_type) r e
      λ _. equality py s t left right ne _ (λ v. refl) (λ v w. refl)
binary-Safe py and s t r {a} {b} sf tf e left right =
    through (λ x. Safe (Is py x) (combine py and a b)) _ (plain boolean_type) r e
      (logical py s t left right and (early_and py) (λ v w. refl))
binary-Safe py or s t r {a} {b} sf tf e left right =
    through (λ x. Safe (Is py x) (combine py or a b)) _ (plain boolean_type) r e
      (logical py s t left right or (early_or py) (λ v w. refl))
binary-Safe py gt s t r {a} {b} sf tf e left right =
    through (λ x. Safe (Is py x) (combine py gt a b)) _ (plain boolean_type) r e
      (ordering py s t left right gt (λ v. refl) (λ v w. refl))
binary-Safe py gte s t r {a} {b} sf tf e left right =
    through (λ x. Safe (Is py x) (combine py gte a b)) _ (plain boolean_type) r e
      (ordering py s t left right gte (λ v. refl) (λ v w. refl))
binary-Safe py lt s t r {a} {b} sf tf e left right =
    through (λ x. Safe (Is py x) (combine py lt a b)) _ (plain boolean_type) r e
      (ordering py s t left right lt (λ v. refl) (λ v w. refl))
binary-Safe py lte s t r {a} {b} sf tf e left right =
    through (λ x. Safe (Is py x) (combine py lte a b)) _ (plain boolean_type) r e
      (ordering py s t left right lte (λ v. refl) (λ v w. refl))
binary-Safe py add s t r {a} {b} sf tf e left right =
    through (λ x. Safe (Is py x) (combine py add a b)) _ (plain (result_type py s t)) r e
      (arithmetic py s t left right add (λ v. refl) (λ v w. refl))
binary-Safe py subtract s t r {a} {b} sf tf e left right =
    through (λ x. Safe (Is py x) (combine py subtract a b)) _ (plain (result_type py s t)) r e
      (arithmetic py s t left right subtract (λ v. refl) (λ v w. refl))
binary-Safe py multiply s t r {a} {b} sf tf e left right =
    through (λ x. Safe (Is py x) (combine py multiply a b)) _ (plain (result_type py s t)) r e
      (arithmetic py s t left right multiply (λ v. refl) (λ v w. refl))
binary-Safe py concat s t r {a} {b} sf tf e left right =
    through (λ x. Safe (Is py x) (combine py concat a b)) _ (plain string_type) r e
      (joining py s t left right)
binary-Safe py coalesce s t r sf tf e left right = coalesce-Safe py s t r sf tf e left right
