-- ===== src/Graph/Order/Counts.antt =====
-- Counts of names and edges in the loop over a graph's order.
use mathlib.Core.Bool.{false≢true}
use mathlib.Core.List.{Memᴰ}
use mathlib.Core.List.Memᴰ.{head, tail}
use agentops_workflow_platfo.Base.{
  ℕ, suc, ◌+◌, ◌≤◌, String, str_eq, eq_iff, ◌≡◌, refl, sym, ◌∙◌, subst, true, false, not, ◌&&◌,
  List, [], ◌∷◌, ◌++◌, length, arith, Bool-cases, inl, inr, if◌then◌else◌,
}
use agentops_workflow_platfo.Engine.World.{Edge}
use agentops_workflow_platfo.Graph.Order.{occurs, member, outgoing, incoming}

-- The edges into `x` whose source is not done.
abbrev pub waiting : String → List String → List Edge → ℕ
waiting x done [] = 0
waiting x done (e ∷ es) =
    (if str_eq e.target x && not (member e.source done) then 1 else 0) + waiting x done es

abbrev pub into : String → List Edge → ℕ
into x [] = 0
into x (e ∷ es) = (if str_eq e.target x then 1 else 0) + into x es

pub occurs-append :
    (x y : String) (xs : List String) → occurs x (xs ++ y ∷ []) ≡ occurs x xs + occurs x (y ∷ [])
occurs-append x y [] = omega arith
occurs-append x y (z ∷ zs) = ground (arith, occurs-append x y zs)

pub member-occurs : (x : String) (xs : List String) → member x xs ≡ true → 1 ≤ occurs x xs
member-occurs x [] h = absurd (false≢true h)
member-occurs x (y ∷ ys) h = ground (arith, member-occurs x ys, h)

pub not_member : (x : String) (xs : List String) → occurs x xs ≡ 0 → member x xs ≡ false
not_member x [] h = refl
not_member x (y ∷ ys) h = ground (arith, not_member x ys, h)

pub occurs_self : (x : String) (xs : List String) → occurs x (x ∷ xs) ≡ suc (occurs x xs)
occurs_self x xs = rw ((eq_iff x x).1 refl) (omega arith)

pub waiting-none :
    (x : String) (done : List String) (es : List Edge) (e : Edge)
    → waiting x done es ≤ 0
    → Memᴰ e es
    → str_eq e.target x ≡ true
    → member e.source done ≡ true
waiting-none x done [] e h m t = elim m [ ]
waiting-none x done (d ∷ ds) e h (head here) t = rw here (ground (arith, h, rw here at t))
waiting-none x done (d ∷ ds) e h (tail m) t = waiting-none x done ds e (omega (arith, h)) m t

pub waiting-incoming : (x : String) (es : List Edge) → waiting x [] es ≡ length (incoming es x)
waiting-incoming x [] = refl
waiting-incoming x (e ∷ es) = ground (arith, waiting-incoming x es)

-- Taking a node that was not done moves its edges from the waiting ones to those to relax.
pub waiting-take :
    (x key : String) (done : List String) (es : List Edge)
    → member key done ≡ false
    → waiting x (key ∷ done) es + into x (outgoing es key) ≡ waiting x done es
waiting-take x key done [] h = refl
waiting-take x key done (e ∷ es) h = elim (Bool-cases (str_eq e.source key)) [
  | inl own ↦
      let out = subst (λ k. member k done ≡ false) (sym ((eq_iff e.source key).0 own)) h in
      let back = (eq_iff key e.source).1 (sym ((eq_iff e.source key).0 own)) in
      ground (arith, own, out, back, waiting-take x key done es h)
  | inr other ↦ elim (Bool-cases (str_eq key e.source)) [
    | inl same ↦
        absurd
          (false≢true (sym other ∙ (eq_iff e.source key).1 (sym ((eq_iff key e.source).0 same))))
    | inr apart ↦ ground (arith, other, apart, waiting-take x key done es h)
  ]
]
