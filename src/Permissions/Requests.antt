-- ===== src/Permissions/Requests.antt =====
-- `request_action` of services/permissions.py: the permission that a request needs.
use agentops_workflow_platfo.Base.{
  ℕ, String, Bool, ◌||◌, Option, none, some, List, [], ◌∷◌, ◌==◌, if◌then◌else◌,
}
use agentops_workflow_platfo.Base.Text.{codes, starts, ends, has, same_text, rstrip_slash, segment}

-- path.split("/")[1]; there is none in a path with no slash
unfoldable pub second_part : List ℕ → Option (List ℕ)
unfolding segment
second_part [] = none
second_part (c ∷ cs) = if c == b'/' then some (segment cs) else second_part cs

unfoldable pub is : List ℕ → String → Bool
unfolding same_text
is text name = same_text text (codes name)

unfoldable pub under : List ℕ → String → Bool
unfolding starts
under path prefix = starts (codes prefix) path

unfoldable pub read_action : List ℕ → String
unfolding under has
read_action path =
    if under path "/access/audit"
    then "audit.read"
    else if under path "/access/members"
    then "membership.manage"
    else if has (codes "/export/") path
    then "export"
    else "read"

unfoldable pub tool_action : List ℕ → String
unfolding under ends
tool_action path =
    if under path "/tools/credentials"
    then "credentials.manage"
    else if ends (codes "/resolve") path
    then "tool.resolve"
    else "tool.manage"

unfoldable pub definition_action : List ℕ → String
unfolding ends rstrip_slash
definition_action path =
    let p = rstrip_slash path in
    if ends (codes "/publish") p || ends (codes "/archive") p
    then "workflow.publish"
    else if ends (codes "/validate") p
    then "read"
    else "workflow.draft"

unfoldable pub run_action : List ℕ → String
unfolding is has rstrip_slash
run_action path =
    if is (rstrip_slash path) "/workflow-runs"
    then "workflow.start"
    else if has (codes "evaluation-comparison") path
    then "evaluation.run"
    else "workflow.control"

abbrev pub prefixes : List (String × String)
prefixes =
    ("human-approvals", "approval.decide")
    ∷ ("execution-approvals", "approval.decide")
    ∷ ("uploaded-inputs", "input.write")
    ∷ ("prompt-versions", "prompt.manage")
    ∷ ("agent-settings", "settings.manage")
    ∷ ("evaluation-results", "evaluation.run")
    ∷ ("demo", "demo.seed")
    ∷ ("access", "membership.manage")
    ∷ []

unfoldable pub prefix_action : List ℕ → List (String × String) → String
unfolding is
prefix_action prefix [] = "unknown"
prefix_action prefix ((name, action) ∷ rest) =
    if is prefix name then action else prefix_action prefix rest

unfoldable pub write_action : List ℕ → List ℕ → String
unfolding tool_action definition_action run_action prefix_action is rstrip_slash
write_action path prefix =
    if is prefix "webhook-triggers" || is prefix "workflow-schedules"
    then "trigger.manage"
    else if is prefix "tools"
    then tool_action path
    else if is prefix "workflow-executions"
    then (if is (rstrip_slash path) "/workflow-executions"
        then "workflow.start"
        else "workflow.control")
    else if is prefix "workflow-definitions"
    then definition_action path
    else if is prefix "workflow-runs"
    then run_action path
    else prefix_action prefix prefixes

abbrev pub write_action_in : List ℕ → Option (List ℕ) → Option String
write_action_in path none = none
write_action_in path (some prefix) = some (write_action path prefix)

-- `none` is the IndexError of a path with no slash.
unfoldable pub request_action : List ℕ → List ℕ → Option String
unfolding read_action write_action is second_part
request_action method path =
    if is method "GET" || is method "HEAD"
    then some (read_action path)
    else write_action_in path (second_part path)
