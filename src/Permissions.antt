-- ===== src/Permissions.antt =====
-- services/permissions.py: the table of permissions, the decision and the action of a request.
-- The lookup of the caller's membership (`current_principal`) reads tables that are not modelled: its
-- answer is the argument `principal`.
pub mod Requests
pub mod Rules
use agentops_workflow_platfo.Base.{
  ℕ, String, str_eq, Bool, true, false, ◌&&◌, ◌||◌, Option, none, some, List, [], ◌∷◌, any,
  if◌then◌else◌,
}

-- `Principal` of services/identity.py
pub record Principal : Type 0 where
  pub role : String
  pub user_id : Option ℕ
  pub organization_id : Option ℕ
  pub service_principal_id : Option ℕ
  pub scopes : List String

unfoldable pub listed : String → List String → Bool
listed x = any (str_eq x)

abbrev pub lookup : String → List (String × List String) → List String
lookup k [] = []
lookup k ((j, v) ∷ rest) = if str_eq j k then v else lookup k rest

abbrev everyone : List String
everyone = "viewer" ∷ "operator" ∷ "reviewer" ∷ "admin" ∷ []

abbrev operators : List String
operators = "operator" ∷ "admin" ∷ []

abbrev reviewers : List String
reviewers = "reviewer" ∷ "admin" ∷ []

abbrev admins : List String
admins = "admin" ∷ []

-- PERMISSIONS
abbrev pub permissions : List (String × List String)
permissions =
    ("read", everyone)
    ∷ ("export", everyone)
    ∷ ("workflow.start", operators)
    ∷ ("workflow.draft", operators)
    ∷ ("workflow.control", operators)
    ∷ ("input.write", operators)
    ∷ ("evaluation.run", admins)
    ∷ ("approval.decide", reviewers)
    ∷ ("approval.override", admins)
    ∷ ("prompt.manage", admins)
    ∷ ("settings.manage", admins)
    ∷ ("membership.manage", admins)
    ∷ ("credentials.manage", admins)
    ∷ ("tool.manage", admins)
    ∷ ("tool.resolve", admins)
    ∷ ("trigger.manage", admins)
    ∷ ("workflow.publish", admins)
    ∷ ("demo.seed", admins)
    ∷ ("audit.read", admins)
    ∷ []

abbrev in_scope : Option ℕ → List String → String → Bool
in_scope none scopes action = true
in_scope (some _) scopes action = listed action scopes

unfoldable pub permits : Principal → String → Bool
permits p action =
    listed p.role (lookup action permissions) && in_scope p.service_principal_id p.scopes action
