-- ===== src/Graph/Order/Search.antt =====
-- A search from one node finds what can be reached from it, within its fuel.
use mathlib.Core.Bool.{false≢true}
use mathlib.Core.Logic.{∥∥₁_elim}
use mathlib.Core.List.{Memᴰ}
use mathlib.Core.List.Memᴰ.{head, tail}
use agentops_workflow_platfo.Base.{
  ℕ, zero, suc, ◌+◌, ◌≤◌, String, str_eq, eq_iff, ◌≡◌, refl, sym, subst, Bool, true, false, ◌||◌,
  ◌↔◌, some, List, [], ◌∷◌, any, length, arith, Bool-cases, inl, inr, if◌then◌else◌,
}
use agentops_workflow_platfo.Engine.World.{Edge}
use agentops_workflow_platfo.Graph.Order.{member, outgoing, push_all, reach}

-- There is a path from the node where the search starts.
pub data Reachable (entry : String) (es : List Edge) : String → Type 0 where
  at_entry : Reachable entry es entry
  along : (e : Edge) → Memᴰ e es → Reachable entry es e.source → Reachable entry es e.target

-- The edges whose source has not been reached.
abbrev pub unseen : List String → List Edge → ℕ
unseen reached [] = 0
unseen reached (e ∷ es) = (if member e.source reached then 0 else 1) + unseen reached es

pub unseen-start : (es : List Edge) → unseen [] es ≡ length es
unseen-start [] = refl
unseen-start (e ∷ es) = omega (arith, unseen-start es)

pub unseen-expand :
    (key : String) (reached : List String) (es : List Edge)
    → member key reached ≡ false
    → unseen (key ∷ reached) es + length (outgoing es key) ≤ unseen reached es
unseen-expand key reached [] h = omega arith
unseen-expand key reached (e ∷ es) h = elim (Bool-cases (str_eq e.source key)) [
  | inl own ↦
      let same = sym ((eq_iff e.source key).0 own) in
      ground (
        arith,
        own,
        subst (λ k. member k reached ≡ false) same h,
        (eq_iff key e.source).1 same,
        unseen-expand key reached es h,
      )
  | inr other ↦ ground (arith, other, unseen-expand key reached es h)
]

pub push_all-length :
    (es : List Edge) (queue : List String) → length (push_all es queue) ≡ length es + length queue
push_all-length [] queue = omega arith
push_all-length (e ∷ es) queue = rw (push_all-length es (e.target ∷ queue)) (omega arith)

pub push_all-member :
    (es : List Edge) (queue : List String) (x : String)
    → member x (push_all es queue) ≡ any (λ e. str_eq e.target x) es || member x queue
push_all-member [] queue x = refl
push_all-member (e ∷ es) queue x = rw (push_all-member es (e.target ∷ queue) x) (ground arith)

pub outgoing-Mem :
    (es : List Edge) (e : Edge)
    → Memᴰ e es
    → any (λ d. str_eq d.target e.target) (outgoing es e.source) ≡ true
outgoing-Mem [] e m = elim m [ ]
outgoing-Mem (d ∷ ds) e (head here) =
    rw here (ground (arith, (eq_iff d.source d.source).1 refl, (eq_iff d.target d.target).1 refl))
outgoing-Mem (d ∷ ds) e (tail m) = ground (arith, outgoing-Mem ds e m)

-- A node of the queue or reached.
abbrev known : List String → List String → String → Bool
known queue reached x = member x reached || member x queue

module _ (entry : String) (es : List Edge) where
  -- What a search from `queue`, with `reached` reached already, has found.
  record Found (queue reached found : List String) : Type 0 where
    closed : (e : Edge) → Memᴰ e es → member e.source found ≡ true → member e.target found ≡ true
    covers : (x : String) → known queue reached x ≡ true → member x found ≡ true
    only_reachable :
        ((x : String) → known queue reached x ≡ true → Reachable entry es x)
        → (x : String) → member x found ≡ true
        → Reachable entry es x

  -- The targets of what is reached are reached or wait in the queue.
  abbrev IsOpen : List String → List String → Type 0
  IsOpen queue reached =
      (e : Edge) → Memᴰ e es → member e.source reached ≡ true → known queue reached e.target ≡ true

  skip-known :
      (key : String) (queue reached : List String) (x : String)
      → member key reached ≡ true
      → known (key ∷ queue) reached x ≡ true
      → known queue reached x ≡ true
  skip-known key queue reached x m h = elim (Bool-cases (str_eq key x)) [
    | inl hit ↦ ground (arith, subst (λ k. member k reached ≡ true) ((eq_iff key x).0 hit) m)
    | inr miss ↦ ground (arith, h, miss)
  ]

  skip-Found :
      (key : String) (queue reached found : List String)
      → member key reached ≡ true
      → Found queue reached found
      → Found (key ∷ queue) reached found
  skip-Found key queue reached found m f = record {
    closed = f.closed;
    covers = λ x h. f.covers x (skip-known key queue reached x m h);
    only_reachable = λ r x h. f.only_reachable (λ y k. r y (ground (arith, k))) x h;
  }

  next-known :
      (key : String) (queue reached : List String) (x : String)
      → known (key ∷ queue) reached x ≡ true
      → known (push_all (outgoing es key) queue) (key ∷ reached) x ≡ true
  next-known key queue reached x h =
      rw (push_all-member (outgoing es key) queue x) (ground (arith, h))

  target-Reachable :
      (key : String) (ds : List Edge) (x : String)
      → Reachable entry es key
      → ((e : Edge) → Memᴰ e ds → Memᴰ e es)
      → any (λ d. str_eq d.target x) (outgoing ds key) ≡ true
      → Reachable entry es x
  target-Reachable key [] x r sub h = absurd (false≢true h)
  target-Reachable key (d ∷ ds) x r sub h = elim (Bool-cases (str_eq d.source key)) [
    | inr other ↦ target-Reachable key ds x r (λ e m. sub e (tail m)) (rw other at h)
    | inl own ↦ elim (Bool-cases (str_eq d.target x)) [
      | inr miss ↦
          target-Reachable key ds x r (λ e m. sub e (tail m)) (ground (arith, h, own, miss))
      | inl hit ↦ subst (Reachable entry es) ((eq_iff d.target x).0 hit) (
          along d (sub d (head refl))
            (subst (Reachable entry es) (sym ((eq_iff d.source key).0 own)) r))
    ]
  ]

  expand-Found :
      (key : String) (queue reached found : List String)
      → Found (push_all (outgoing es key) queue) (key ∷ reached) found
      → Found (key ∷ queue) reached found
  expand-Found key queue reached found f = record {
    closed = f.closed;
    covers = λ x h. f.covers x (next-known key queue reached x h);
    only_reachable = λ r x h. f.only_reachable (λ y k. before r y k) x h;
  }
    where
      before :
          ((x : String) → known (key ∷ queue) reached x ≡ true → Reachable entry es x)
          → (y : String) → known (push_all (outgoing es key) queue) (key ∷ reached) y ≡ true
          → Reachable entry es y
      before r y k = elim (Bool-cases (known (key ∷ queue) reached y)) [
        | inl old ↦ r y old
        | inr new ↦
            target-Reachable key es y (r key (ground (arith, (eq_iff key key).1 refl))) (λ e m. m)
              (ground (arith, rw (push_all-member (outgoing es key) queue y) at k, new))
      ]

  expand-IsOpen :
      (key : String) (queue reached : List String)
      → IsOpen (key ∷ queue) reached
      → IsOpen (push_all (outgoing es key) queue) (key ∷ reached)
  expand-IsOpen key queue reached o e m h = elim (Bool-cases (str_eq key e.source)) [
    | inr other ↦ next-known key queue reached e.target (o e m (rw other at h))
    | inl own ↦ rw (push_all-member (outgoing es key) queue e.target) (
        ground (
          arith,
          subst (λ k. any (λ d. str_eq d.target e.target) (outgoing es k) ≡ true)
              (sym ((eq_iff key e.source).0 own)) (outgoing-Mem es e m),
        ))
  ]

  reach-Found :
      (fuel : ℕ) (queue reached : List String)
      → length queue + unseen reached es ≤ fuel
      → IsOpen queue reached
      → (found : List String) × (reach fuel es queue reached ≡ some found)
        × Found queue reached found
  unfolding reach
  reach-Found fuel [] reached enough o = (
    reached,
    refl,
    record {
      closed = λ e m h. ground (arith, o e m h);
      covers = λ x h. ground (arith, h);
      only_reachable = λ r x h. r x (ground (arith, h));
    },
  )
  reach-Found zero (key ∷ queue) reached enough o = absurd (omega (arith, enough))
  reach-Found (suc fuel) (key ∷ queue) reached enough o = elim (Bool-cases (member key reached)) [
    | inl again ↦
        let (found, e, f) =
          reach-Found fuel queue reached (omega (arith, enough))
            (λ e m h. skip-known key queue reached e.target again (o e m h)) in
        (found, rw again e, skip-Found key queue reached found again f)
    | inr first ↦
        let (found, e, f) =
          reach-Found fuel (push_all (outgoing es key) queue) (key ∷ reached)
            (omega (
              arith,
              enough,
              unseen-expand key reached es first,
              push_all-length (outgoing es key) queue,
            ))
            (expand-IsOpen key queue reached o) in
        (found, rw first e, expand-Found key queue reached found f)
  ]

Reachable-Found :
    (entry : String) (es : List Edge) (found : List String)
    → Found entry es (entry ∷ []) [] found
    → (x : String) → Reachable entry es x
    → member x found ≡ true
Reachable-Found entry es found f _ at_entry =
    f.covers entry (ground (arith, (eq_iff entry entry).1 refl))
Reachable-Found entry es found f _ (along e m r) =
    f.closed e m (Reachable-Found entry es found f e.source r)

Found-Reachable :
    (entry : String) (es : List Edge) (found : List String)
    → Found entry es (entry ∷ []) [] found
    → (x : String) → member x found ≡ true
    → Reachable entry es x
Found-Reachable entry es found f = f.only_reachable λ x h. elim (Bool-cases (str_eq entry x)) [
  | inl hit ↦ subst (Reachable entry es) ((eq_iff entry x).0 hit) at_entry
  | inr miss ↦ absurd (ground (arith, h, miss))
]

-- A search from one node ends within its fuel and finds what can be reached from it.
pub reach-Reachable :
    (entry : String) (es : List Edge)
    → (found : List String) × (reach (suc (length es)) es (entry ∷ []) [] ≡ some found)
      × ((x : String) → (member x found ≡ true) ↔ ∥ Reachable entry es x ∥₁)
reach-Reachable entry es =
    let (found, e, f) =
      reach-Found entry es (suc (length es)) (entry ∷ []) [] (omega (arith, unseen-start es))
        (λ e m h. absurd (false≢true h)) in
    (
      found,
      e,
      λ x. (
        λ m. ∣ Found-Reachable entry es found f x m ∣₁,
        λ r. ∥∥₁_elim r (hlevel) (Reachable-Found entry es found f x),
      ),
    )
