-- ===== src/Graph/Region/Search.antt =====
-- What the search for the nodes of a branch has found when it ends.
use mathlib.Core.Bool.{false≢true}
use mathlib.Core.Option.{some-injective}
use mathlib.Core.List.{Memᴰ}
use agentops_workflow_platfo.Base.{
  ℕ, zero, suc, String, str_eq, eq_iff, ◌≡◌, sym, ap, subst, Bool, true, ◌||◌, Option, none, some,
  List, [], ◌∷◌, any, arith, Bool-cases, inl, inr, is_some,
}
use agentops_workflow_platfo.Engine.World.{Edge}
use agentops_workflow_platfo.Graph.Order.{member, outgoing, push_all}
use agentops_workflow_platfo.Graph.Order.Search.{push_all-member, outgoing-Mem}
use agentops_workflow_platfo.Graph.Region.{
  Explored, explored, dead_end, cut_off, next_region, explore,
}

module _ (es : List Edge) (join : String) where
  abbrev pub seen : List String → List String → String → Bool
  seen pending region x = str_eq join x || member x region || member x pending

  -- What the loop has found from `pending`, with `region` found already.
  pub record Closed (pending region found : List String) : Type 0 where
    pub closed :
        (e : Edge)
        → Memᴰ e es
        → member e.source found ≡ true
        → str_eq join e.target || member e.target found ≡ true
    pub covers :
        (x : String) → seen pending region x ≡ true → str_eq join x || member x found ≡ true

  abbrev IsOpen : List String → List String → Type 0
  IsOpen pending region =
      (e : Edge) → Memᴰ e es → member e.source region ≡ true → seen pending region e.target ≡ true

  skip-seen :
      (key : String) (pending region : List String) (x : String)
      → str_eq join key || member key region ≡ true
      → seen (key ∷ pending) region x ≡ true
      → seen pending region x ≡ true
  skip-seen key pending region x m h = elim (Bool-cases (str_eq key x)) [
    | inl hit ↦
        ground
          (arith, subst (λ k. str_eq join k || member k region ≡ true) ((eq_iff key x).0 hit) m)
    | inr miss ↦ ground (arith, h, miss)
  ]

  next-seen :
      (key : String) (pending region : List String) (x : String)
      → seen (key ∷ pending) region x ≡ true
      → seen (push_all (outgoing es key) pending) (key ∷ region) x ≡ true
  next-seen key pending region x h =
      rw (push_all-member (outgoing es key) pending x) (ground (arith, h))

  next-IsOpen :
      (key : String) (pending region : List String)
      → IsOpen (key ∷ pending) region
      → IsOpen (push_all (outgoing es key) pending) (key ∷ region)
  next-IsOpen key pending region o e m h = elim (Bool-cases (str_eq key e.source)) [
    | inr other ↦ next-seen key pending region e.target (o e m (rw other at h))
    | inl own ↦ rw (push_all-member (outgoing es key) pending e.target) (
        ground (
          arith,
          subst (λ k. any (λ d. str_eq d.target e.target) (outgoing es k) ≡ true)
              (sym ((eq_iff key e.source).0 own)) (outgoing-Mem es e m),
        ))
  ]

  abbrev pub found_of : Explored → Option (List String)
  found_of (explored found) = some found
  found_of dead_end = none
  found_of cut_off = none

  next_region-found :
      (ds : List Edge) (further : Explored) {found : List String}
      → found_of (next_region ds further) ≡ some found
      → found_of further ≡ some found
  next_region-found [] further h = absurd (false≢true (ap is_some h))
  next_region-found (d ∷ ds) further h = h

  pub explore-Closed :
      (fuel : ℕ) (pending region : List String) {found : List String}
      → IsOpen pending region
      → found_of (explore es join fuel pending region) ≡ some found
      → Closed pending region found
  unfolding explore
  explore-Closed fuel [] region o h =
      subst (Closed [] region) (some-injective _ _ h)
        (record { closed = λ e m s. ground (arith, o e m s); covers = λ x s. ground (arith, s) })
  explore-Closed zero (key ∷ pending) region o h = absurd (false≢true (ap is_some h))
  explore-Closed (suc fuel) (key ∷ pending) region {found = found} o h =
      elim (Bool-cases (str_eq join key || member key region)) [
        | inl again ↦
            let c =
              explore-Closed fuel pending region {found = found}
                (λ e m s. skip-seen key pending region e.target again (o e m s)) (rw again at h) in
            record {
              closed = c.closed;
              covers = λ x s. c.covers x (skip-seen key pending region x again s);
            }
        | inr first ↦
            let c =
              explore-Closed fuel (push_all (outgoing es key) pending) (key ∷ region)
                {found = found} (next-IsOpen key pending region o)
                (next_region-found (outgoing es key) _ (rw first at h)) in
            record {
              closed = c.closed;
              covers = λ x s. c.covers x (next-seen key pending region x s);
            }
      ]
