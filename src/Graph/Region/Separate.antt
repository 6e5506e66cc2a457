-- ===== src/Graph/Region/Separate.antt =====
-- The branches of a fork that has been accepted have no node in common.
use mathlib.Core.Bool.{false≢true}
use mathlib.Core.Option.{some-injective}
use mathlib.Core.List.{Memᴰ}
use mathlib.Core.List.Memᴰ.{head, tail}
use agentops_workflow_platfo.Base.{
  both, suc, String, str_eq, eq_iff, ◌≡◌, refl, sym, ap, ◌∙◌, subst, true, false, ◌||◌, some, List,
  [], ◌∷◌, ◌++◌, length, any-append, arith, Bool-cases, Option-cases, inl, inr, is_some,
}
use agentops_workflow_platfo.Engine.World.{Edge, ParallelBranch, WorkflowGraph}
use agentops_workflow_platfo.Graph.Order.{member, incoming}
use agentops_workflow_platfo.Graph.Region.Search.{Closed, found_of, explore-Closed}
use agentops_workflow_platfo.Graph.Region.{
  Explored, explored, dead_end, cut_off, overlap, entered, with_region, branch_nodes,
  branches_nodes, closes, region_ok,
}

-- The nodes on the paths from a branch's entry that have not met the join.
pub data Within (es : List Edge) (join entry : String) : String → Type 0 where
  at_entry : Within es join entry entry
  along :
      (e : Edge)
      → Memᴰ e es
      → Within es join entry e.source
      → str_eq join e.target ≡ false
      → Within es join entry e.target

other_way : (a b : String) → str_eq a b ≡ false → str_eq b a ≡ false
other_way a b h = elim (Bool-cases (str_eq b a)) [
  | inr other ↦ other
  | inl same ↦ absurd (false≢true (sym h ∙ (eq_iff a b).1 (sym ((eq_iff b a).0 same))))
]

module _ (es : List Edge) (join : String) where
  Within-found :
      (entry : String) (found : List String)
      → Closed es join (entry ∷ []) [] found
      → str_eq join entry ≡ false
      → {x : String} → Within es join entry x
      → member x found ≡ true
  Within-found entry found c n at_entry =
      ground (arith, n, c.covers entry (ground (arith, (eq_iff entry entry).1 refl)))
  Within-found entry found c n (along e m w past) =
      ground (arith, past, c.closed e m (Within-found entry found c n w))

  -- The branches are apart from what is in `nodes`, and from each other.
  abbrev IsApart : List String → ParallelBranch → Type 0
  IsApart nodes b = (x : String) → Within es join b.entry_node x → member x nodes ≡ true → ⊥

  abbrev pub AreSeparate : List ParallelBranch → Type 0
  AreSeparate [] = Unit {0}
  AreSeparate (b ∷ bs) =
      ((c : ParallelBranch)
        → Memᴰ c bs
        → (x : String) → Within es join b.entry_node x
        → Within es join c.entry_node x
        → ⊥)
      × AreSeparate bs

  with_region-some :
      (fork : String) (nodes : List String) (o : Explored) {after : List String}
      → with_region es join fork nodes o ≡ some after
      → (region : List String) × (found_of es join o ≡ some region)
        × (overlap es join region nodes ≡ false)
        × (region ++ nodes ≡ after)
  with_region-some fork nodes dead_end h = absurd (false≢true (ap is_some h))
  with_region-some fork nodes cut_off h = absurd (false≢true (ap is_some h))
  with_region-some fork nodes (explored region) h =
      elim (Bool-cases (overlap es join region nodes || entered es join fork region)) [
        | inl bad ↦ absurd (false≢true (ap is_some (rw bad at h)))
        | inr good ↦ (region, refl, ground (arith, good), some-injective _ _ (rw good at h))
      ]

  no_overlap :
      (region nodes : List String) (x : String)
      → overlap es join region nodes ≡ false
      → member x region ≡ true
      → member x nodes ≡ false
  no_overlap [] nodes x h m = absurd (false≢true m)
  no_overlap (y ∷ ys) nodes x h m = elim (Bool-cases (str_eq y x)) [
    | inl hit ↦ subst (λ k. member k nodes ≡ false) ((eq_iff y x).0 hit) (ground (arith, h))
    | inr miss ↦ no_overlap ys nodes x (ground (arith, h)) (rw miss at m)
  ]

  branch-region :
      (fork : String) (nodes : List String) (b : ParallelBranch) {after : List String}
      → branch_nodes es join fork nodes b ≡ some after
      → (region : List String) × (overlap es join region nodes ≡ false)
        × (region ++ nodes ≡ after)
        × ((x : String) → Within es join b.entry_node x → member x region ≡ true)
  branch-region fork nodes b h = elim (Bool-cases (str_eq b.entry_node join)) [
    | inl empty ↦ absurd (false≢true (ap is_some (rw empty at h)))
    | inr proper ↦
        let (region, found, apart, after) = with_region-some fork nodes _ (rw proper at h) in
        let c =
          explore-Closed es join (suc (length es)) (b.entry_node ∷ []) [] {found = region}
            (λ e m s. absurd (false≢true s)) found in
        (
          region,
          apart,
          after,
          λ x w. Within-found b.entry_node region c (other_way b.entry_node join proper) w,
        )
  ]

  first :
      (fork : String) (b : ParallelBranch) (bs : List ParallelBranch)
      (region nodes more : List String)
      → overlap es join region nodes ≡ false
      → ((x : String) → member x more ≡ member x region || member x nodes)
      → ((x : String) → Within es join b.entry_node x → member x region ≡ true)
      → ((c : ParallelBranch) → Memᴰ c bs → IsApart more c)
      → (c : ParallelBranch) → Memᴰ c (b ∷ bs)
      → IsApart nodes c
  first fork b bs region nodes more apart joined within others c (head here) x w m = false≢true (
      sym (
        no_overlap region nodes x apart
          (within x (subst (λ d. Within es join d.entry_node x) here w)))
      ∙ m)
  first fork b bs region nodes more apart joined within others c (tail t) x w m =
      others c t x w (ground (arith, joined x, m))

  branches-AreSeparate :
      (fork : String) (bs : List ParallelBranch) (nodes : List String) {after : List String}
      → branches_nodes es join fork bs nodes ≡ some after
      → ((b : ParallelBranch) → Memᴰ b bs → IsApart nodes b) × AreSeparate bs
  unfolding branches_nodes
  branches-AreSeparate fork [] nodes h = ((λ b m. elim m [ ]), tt)
  branches-AreSeparate fork (b ∷ bs) nodes h =
      elim (Option-cases (branch_nodes es join fork nodes b)) [
        | inl z ↦ absurd (false≢true (ap is_some (rw z at h)))
        | inr (more, some_more) ↦
            let (region, apart, same, within) = branch-region fork nodes b some_more in
            let (others, separate) = branches-AreSeparate fork bs more (rw some_more at h) in
            let joined = λ (x : String).
              subst (λ k. member x k ≡ member x region || member x nodes) same
                (any-append (λ y. str_eq y x) region nodes) in
            (
              first fork b bs region nodes more apart joined within others,
              (
                (λ c m x w v.
                    others c m x v (joined x ∙ ap (λ k. k || member x nodes) (within x w))),
                separate,
              ),
            )
      ]

-- In a parallel region that the validation has accepted, no node lies on paths of two branches of the
-- fork, as long as the paths have not met the join.
pub region_ok-AreSeparate :
    (g : WorkflowGraph) (fork join : String) (branches : List ParallelBranch)
    → region_ok g fork branches join ≡ true
    → AreSeparate g.edges join branches
unfolding region_ok
region_ok-AreSeparate g fork join branches h =
    elim (Option-cases (branches_nodes g.edges join fork branches [])) [
      | inl z ↦ absurd (
          false≢true (
            rw z at
              (both
                {b = closes (incoming g.edges join) (branches_nodes g.edges join fork branches [])}
                h).1))
      | inr (nodes, all_nodes) ↦ (branches-AreSeparate g.edges join fork branches [] all_nodes).1
    ]
