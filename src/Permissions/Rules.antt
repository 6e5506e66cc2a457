-- ===== src/Permissions/Rules.antt =====
-- What the roles may ask for, over every method, path and caller.
use mathlib.Core.Bool.{false≢true}
use mathlib.Core.Option.{some-injective}
use agentops_workflow_platfo.Base.{
  ℕ, String, str_eq, ◌≡◌, refl, sym, ap, ◌∙◌, subst, Bool, true, false, not, ◌&&◌, ◌||◌, Option,
  none, some, List, [], ◌∷◌, any, all, if◌then◌else◌, arith, Bool-cases, inl, inr, is_some,
}
use agentops_workflow_platfo.Base.Text.{codes, ends, rstrip_slash, has}
use agentops_workflow_platfo.Permissions.{Principal, listed, lookup, permissions, permits}
use agentops_workflow_platfo.Permissions.Requests.{
  under, is, second_part, read_action, tool_action, definition_action, run_action, prefixes,
  prefix_action, write_action, write_action_in, request_action,
}

-- A test that an action passes, kept together with the action.
record Passes (test : String → Bool) (action : String) : Type 0 where
  passes : test action ≡ true

-- To prove a fact of every action that a request can need, prove it of each.
module _ {test : String → Bool} where
  each : (action : String) → test action ≡ true → Passes test action
  each action h = record { passes = h }

  on_if :
      (c : Bool) {x y : String} → Passes test x → Passes test y → Passes test (if c then x else y)
  on_if true px py = px
  on_if false px py = py

  on_prefixes :
      (prefix : List ℕ) (table : List (String × String))
      → (all (λ row. test row.1) table && test "unknown") ≡ true
      → Passes test (prefix_action prefix table)
  unfolding prefix_action
  on_prefixes prefix [] h = each "unknown" h
  on_prefixes prefix ((name, action) ∷ rest) h =
      on_if (is prefix name) (each action (ground (arith, h)))
        (on_prefixes prefix rest (ground (arith, h)))

  on_if_true :
      (c : Bool) {x y : String}
      → (c ≡ true → Passes test x)
      → Passes test y
      → Passes test (if c then x else y)
  on_if_true true px py = px refl
  on_if_true false px py = py

-- The actions that a write can need, `read` aside.
abbrev written : List String
written =
    "trigger.manage" ∷ "credentials.manage" ∷ "tool.resolve" ∷ "tool.manage" ∷ "workflow.start"
    ∷ "workflow.control" ∷ "workflow.publish" ∷ "workflow.draft" ∷ "evaluation.run" ∷ []

-- `POST /workflow-definitions/.../validate`, the one write that only reads.
unfoldable pub validates : List ℕ → List ℕ → Bool
validates path prefix =
    is prefix "workflow-definitions" && ends (codes "/validate") (rstrip_slash path)

module _ (test : String → Bool) (path : List ℕ) (writes : all test written ≡ true) where
  tool_action-Passes : Passes test (tool_action path)
  unfolding tool_action
  tool_action-Passes =
      on_if (under path "/tools/credentials") (each "credentials.manage" (ground (arith, writes))) (
        on_if (ends (codes "/resolve") path) (each "tool.resolve" (ground (arith, writes)))
          (each "tool.manage" (ground (arith, writes))))

  run_action-Passes : Passes test (run_action path)
  unfolding run_action
  run_action-Passes =
      on_if (is (rstrip_slash path) "/workflow-runs")
        (each "workflow.start" (ground (arith, writes)))
        (on_if (has (codes "evaluation-comparison") path)
          (each "evaluation.run" (ground (arith, writes)))
          (each "workflow.control" (ground (arith, writes))))

  definition_action-Passes :
      (ends (codes "/validate") (rstrip_slash path) ≡ true → test "read" ≡ true)
      → Passes test (definition_action path)
  unfolding definition_action
  definition_action-Passes reads =
      on_if
        (ends (codes "/publish") (rstrip_slash path) || ends (codes "/archive") (rstrip_slash path))
        (each "workflow.publish" (ground (arith, writes)))
        (on_if_true (ends (codes "/validate") (rstrip_slash path)) (λ c. each "read" (reads c))
          (each "workflow.draft" (ground (arith, writes))))

  write_action-Passes :
      (prefix : List ℕ)
      → (all (λ row. test row.1) prefixes && test "unknown") ≡ true
      → (validates path prefix ≡ true → test "read" ≡ true)
      → Passes test (write_action path prefix)
  unfolding write_action validates
  write_action-Passes prefix others reads =
      on_if (is prefix "webhook-triggers" || is prefix "workflow-schedules")
        (each "trigger.manage" (ground (arith, writes)))
        (on_if (is prefix "tools") tool_action-Passes (
          on_if (is prefix "workflow-executions")
            (on_if (is (rstrip_slash path) "/workflow-executions")
              (each "workflow.start" (ground (arith, writes)))
              (each "workflow.control" (ground (arith, writes))))
            (on_if_true (is prefix "workflow-definitions")
              (λ d. definition_action-Passes λ c. reads (rw d c))
              (on_if (is prefix "workflow-runs") run_action-Passes
                (on_prefixes prefix prefixes others)))))

-- An action with a row in the table of permissions, or the one that nobody has.
abbrev pub known : String → Bool
known action = str_eq action "unknown" || any (λ row. str_eq row.0 action) permissions

read_action-known : (path : List ℕ) → Passes known (read_action path)
unfolding read_action
read_action-known path = on_if (under path "/access/audit") (each "audit.read" refl) (
    on_if (under path "/access/members") (each "membership.manage" refl)
      (on_if (has (codes "/export/") path) (each "export" refl) (each "read" refl)))

-- The two tables agree: the action that a request needs has a row in the table of permissions, or is
-- `unknown`.
pub request_action-known :
    (method path : List ℕ) (action : String)
    → request_action method path ≡ some action
    → known action ≡ true
unfolding request_action
request_action-known method path action h =
    elim (Bool-cases (is method "GET" || is method "HEAD")) [
      | inl reads ↦
          subst (λ a. known a ≡ true) (some-injective _ _ (rw reads at h))
            (read_action-known path).passes
      | inr writes ↦ go (second_part path) (rw writes at h)
    ]
  where
    go : (o : Option (List ℕ)) → write_action_in path o ≡ some action → known action ≡ true
    go none e = absurd (false≢true (ap is_some e))
    go (some prefix) e =
        subst (λ a. known a ≡ true) (some-injective _ _ e)
          (write_action-Passes known path refl prefix refl (λ _. refl)).passes

-- What a viewer has no permission for.
unfoldable pub denied : String → Bool
unfolding listed
denied action = not (listed "viewer" (lookup action permissions))

left_true : (a b : Bool) → (a && b) ≡ true → not a ≡ false
left_true a b h = ground arith

permits-denied :
    (p : Principal) (action : String)
    → p.role ≡ "viewer"
    → permits p action ≡ true
    → denied action ≡ false
unfolding permits denied
permits-denied p action viewer h =
    left_true (listed "viewer" (lookup action permissions)) _ (rw viewer at h)

writes_denied : all denied written ≡ true
unfolding denied
writes_denied = refl

others_denied : (all (λ row. denied row.1) prefixes && denied "unknown") ≡ true
unfolding denied
others_denied = refl

-- A viewer writes nothing: when the path has a first part, what a viewer is permitted is a GET, a
-- HEAD or the validation of a workflow definition.
pub request_action-viewer :
    (p : Principal) (method path prefix : List ℕ) (action : String)
    → p.role ≡ "viewer"
    → second_part path ≡ some prefix
    → request_action method path ≡ some action
    → permits p action ≡ true
    → (is method "GET" || is method "HEAD" || validates path prefix) ≡ true
unfolding request_action
request_action-viewer p method path prefix action viewer second h may =
    elim (Bool-cases (is method "GET" || is method "HEAD")) [
      | inl reads ↦ rw reads refl
      | inr writes ↦ elim (Bool-cases (validates path prefix)) [
        | inl v ↦ simp (writes, v)
        | inr other ↦ absurd (
            false≢true (
              sym (permits-denied p action viewer may)
              ∙ subst (λ a. denied a ≡ true) (needed writes) (refused_unless other)))
      ]
    ]
  where
    needed : (is method "GET" || is method "HEAD") ≡ false → write_action path prefix ≡ action
    needed writes = some-injective _ _ (rw second at (rw writes at h))

    refused_unless : validates path prefix ≡ false → denied (write_action path prefix) ≡ true
    refused_unless other =
        (write_action-Passes denied path writes_denied prefix others_denied
          (λ v. absurd (false≢true (sym other ∙ v)))).passes
