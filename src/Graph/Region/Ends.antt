-- ===== src/Graph/Region/Ends.antt =====
-- The search for the nodes of a branch ends within its fuel.
use agentops_workflow_platfo.Base.{
  ℕ, zero, suc, ◌+◌, ◌≤◌, String, str_eq, ◌≡◌, refl, Bool, true, false, ◌||◌, List, [], ◌∷◌, length,
  arith, Bool-cases, inl, inr,
}
use agentops_workflow_platfo.Engine.World.{Edge}
use agentops_workflow_platfo.Graph.Order.{member, outgoing, push_all}
use agentops_workflow_platfo.Graph.Order.Search.{
  unseen, unseen-start, unseen-expand, push_all-length,
}
use agentops_workflow_platfo.Graph.Region.{
  Explored, explored, dead_end, cut_off, next_region, explore,
}

abbrev pub is_cut_off : Explored → Bool
is_cut_off (explored region) = false
is_cut_off dead_end = false
is_cut_off cut_off = true

next_region-ends :
    (ds : List Edge) (further : Explored)
    → is_cut_off further ≡ false
    → is_cut_off (next_region ds further) ≡ false
next_region-ends [] further h = refl
next_region-ends (d ∷ ds) further h = h

module _ (es : List Edge) (join : String) where
  explore-ends :
      (fuel : ℕ) (pending region : List String)
      → length pending + unseen region es ≤ fuel
      → is_cut_off (explore es join fuel pending region) ≡ false
  unfolding explore
  explore-ends fuel [] region enough = refl
  explore-ends zero (key ∷ pending) region enough = absurd (omega (arith, enough))
  explore-ends (suc fuel) (key ∷ pending) region enough =
      elim (Bool-cases (str_eq join key || member key region)) [
        | inl again ↦ rw again (explore-ends fuel pending region (omega (arith, enough)))
        | inr first ↦ rw first (
            next_region-ends (outgoing es key) _ (
              explore-ends fuel (push_all (outgoing es key) pending) (key ∷ region) (
                omega (
                  arith,
                  enough,
                  unseen-expand key region es (ground (arith, first)),
                  push_all-length (outgoing es key) pending,
                ))))
      ]

  -- With one more turn than the graph has edges, the search from the entry of a branch is never cut off.
  pub explore-entry :
      (entry : String) → is_cut_off (explore es join (suc (length es)) (entry ∷ []) []) ≡ false
  explore-entry entry =
      explore-ends (suc (length es)) (entry ∷ []) [] (omega (arith, unseen-start es))
