-- ===== src/Client/Routes.antt =====
-- A reader of the requests of frontend/src/api/client.ts, by method, path, query and body.
pub mod Complete
use Prim.Native.String.{String}
use mini_agent_oscoder.Prelude.{
  ◌≡◌, refl, arith, Bool, true, false, ◌&&◌, Option, none, some, List, [], ◌∷◌, Text, text_eq, lit,
  keep, non_empty, or_default, if◌then◌else◌, ◌>>=◌, Bool-cases,
}
use mini_agent_oscoder.Json.{null, bool, str, arr, nil, cons, obj, Value, Items, Fields, get}
use mini_agent_oscoder.Diff.{map_option}
use mini_agent_oscoder.Client.{Method, RunPart, DaemonCall, part_segment}

abbrev is : Text → String → Bool
is s w = text_eq s (lit w)

-- The value of a query of one pair, or none.
abbrev value_of : List (Text × Text) → Option Text
value_of [] = none
value_of ((key, value) ∷ query) = some value

abbrev body_of : Option Value → Option Fields
body_of (some (obj fields)) = some fields
body_of _ = none

abbrev text_at : String → Option Value → Option Text
text_at key body = elim (get (body_of body) key) [
  | none ↦ none
  | some v ↦ elim v [ str s ↦ some s | _ ↦ none ]
]

abbrev bool_at : String → Option Value → Option Bool
bool_at key body = elim (get (body_of body) key) [
  | none ↦ none
  | some v ↦ elim v [ bool b ↦ some b | _ ↦ none ]
]

abbrev value_at : String → Option Value → Option Value
value_at key body = get (body_of body) key

unfoldable pub part_of : Text → Option RunPart
part_of s =
    if is s "admission"
    then some RunPart.admission
    else if is s "model-route"
    then some RunPart.model_route
    else if is s "formal-program"
    then some RunPart.formal_program
    else if is s "conversation"
    then some RunPart.conversation
    else if is s "artifacts"
    then some RunPart.artifacts
    else if is s "report"
    then some RunPart.report
    else if is s "context"
    then some RunPart.context
    else if is s "evidence"
    then some RunPart.evidence
    else if is s "memory"
    then some RunPart.memory
    else if is s "governance"
    then some RunPart.governance
    else if is s "extensions"
    then some RunPart.extensions
    else if is s "trace"
    then some RunPart.trace
    else if is s "approval"
    then some RunPart.approval
    else if is s "checkpoints"
    then some RunPart.checkpoints
    else none

-- The call that compares two runs.
abbrev pair_of : Items → Option DaemonCall
pair_of (cons (str left) (cons (str right) nil)) = some (DaemonCall.compare_history_runs left right)
pair_of _ = none

-- The call of a request, read from its method, the pieces of its path, its query and its body alone.
unfoldable pub identify_get : List Text → List (Text × Text) → Option DaemonCall
unfolding part_of
identify_get (a ∷ []) query = if is a "health" then some DaemonCall.health else none
identify_get (a ∷ b ∷ []) query =
    if is a "runs"
    then some (DaemonCall.get_run b)
    else if is a "models" && is b "status"
    then some (DaemonCall.get_model_status (value_of query))
    else if is a "models" && is b "config"
    then some (DaemonCall.get_model_config (value_of query))
    else if is a "history" && is b "projects"
    then some DaemonCall.get_history_projects
    else if is a "history" && is b "runs"
    then some (DaemonCall.get_history_runs query)
    else if is a "evaluation" && is b "summary"
    then some (DaemonCall.get_evaluation_summary (value_of query))
    else none
identify_get (a ∷ b ∷ c ∷ []) query =
    if is a "projects" && is c "agent-pack"
    then some (DaemonCall.get_agent_pack b (value_of query))
    else if is a "projects" && is c "protocols"
    then some (DaemonCall.get_project_protocols b)
    else if is a "projects" && is c "files"
    then some (DaemonCall.get_project_files b (or_default (value_of query) []))
    else if is a "runs"
    then map_option (λ part. DaemonCall.get_part part b) (part_of c)
    else if is a "history" && is b "runs"
    then some (DaemonCall.get_history_run c)
    else none
identify_get (a ∷ b ∷ c ∷ d ∷ []) query =
    if is a "projects" && is c "agent-pack" && is d "versions"
    then some (DaemonCall.get_agent_pack_versions b)
    else if is a "projects" && is c "agent-pack" && is d "drift"
    then some (DaemonCall.get_agent_pack_drift b (value_of query))
    else if is a "projects" && is c "files" && is d "content"
    then map_option (DaemonCall.get_project_file_content b) (value_of query)
    else none
identify_get _ query = none

unfoldable pub identify_post : List Text → List (Text × Text) → Option Value → Option DaemonCall
identify_post (a ∷ []) query body =
    if is a "runs" then map_option DaemonCall.create_run body else none
identify_post (a ∷ b ∷ []) query body =
    if is a "projects" && is b "select-directory"
    then some DaemonCall.select_project_directory
    else if is a "projects" && is b "open"
    then map_option DaemonCall.open_project (text_at "path" body)
    else if is a "history" && is b "compare"
    then value_at "run_ids" body >>= (λ v. elim v [ arr vs ↦ pair_of vs | _ ↦ none ])
    else none
identify_post (a ∷ b ∷ c ∷ []) query body =
    if is a "runs" && is c "start"
    then some (DaemonCall.start_run b)
    else if is a "runs" && is c "resume"
    then map_option (DaemonCall.resume_run b (text_at "checkpoint_id" body))
        (bool_at "restore_workspace" body)
    else if is a "runs" && is c "cancel"
    then some (DaemonCall.cancel_run b)
    else if is a "runs" && is c "steer"
    then map_option (DaemonCall.steer_run b) (text_at "message" body)
    else if is a "runs" && is c "memory"
    then map_option (DaemonCall.create_memory b) body
    else if is a "runs" && is c "rollback"
    then map_option (DaemonCall.rollback_run b) (text_at "checkpoint_id" body)
    else if is a "runs" && is c "approve"
    then map_option (DaemonCall.approve_action b) (text_at "approval_id" body)
    else if is a "runs" && is c "deny"
    then text_at "approval_id" body
      >>= (λ approval_id. map_option (DaemonCall.deny_action b approval_id) (text_at "reason" body))
    else if is a "runs" && is c "replay"
    then some (DaemonCall.replay_run b)
    else none
identify_post (a ∷ b ∷ c ∷ d ∷ []) query body =
    if is a "projects" && is c "agent-pack" && is d "versions"
    then some (DaemonCall.save_agent_pack_version b (value_of query))
    else if is a "runs" && is c "context" && is d "compact"
    then value_at "target_ratio" body
      >>= (λ ratio. map_option (DaemonCall.compact_context b ratio) (bool_at "confirmed" body))
    else if is a "runs" && is c "extensions" && is d "skills"
    then map_option (DaemonCall.create_skill b) body
    else if is a "runs" && is c "extensions" && is d "mcp-servers"
    then map_option (DaemonCall.create_mcp_server b) body
    else if is a "runs" && is c "extensions" && is d "hooks"
    then map_option (DaemonCall.create_hook b) body
    else if is a "runs" && is c "changes" && is d "accept"
    then map_option (DaemonCall.accept_run_changes b) (text_at "reason" body)
    else none
identify_post _ query body = none

unfoldable pub identify_put : List Text → Option Value → Option DaemonCall
identify_put (a ∷ b ∷ c ∷ []) body =
    if is a "runs" && is c "governance"
    then value_at "sandbox_profile" body >>= (λ profile.
      map_option (DaemonCall.update_governance b profile) (value_at "tool_overrides" body))
    else if is a "runs" && is c "extensions"
    then map_option (DaemonCall.update_extensions b) body
    else none
identify_put (a ∷ b ∷ c ∷ d ∷ []) body =
    if is a "runs" && is c "memory"
    then map_option (DaemonCall.update_memory b d) body
    else if is a "history" && is b "runs" && is d "archive"
    then map_option (DaemonCall.archive_history_run c) (bool_at "archived" body)
    else none
identify_put _ body = none

unfoldable pub identify_delete : List Text → Option DaemonCall
identify_delete (a ∷ b ∷ c ∷ []) =
    if is a "history" && is b "runs" then some (DaemonCall.delete_history_run c) else none
identify_delete (a ∷ b ∷ c ∷ d ∷ []) =
    if is a "runs" && is c "memory" then some (DaemonCall.delete_memory b d) else none
identify_delete _ = none

unfoldable pub identify : Method → List Text → List (Text × Text) → Option Value → Option DaemonCall
unfolding identify_get identify_post identify_put identify_delete
identify Method.get segments query body = identify_get segments query
identify Method.post segments query body = identify_post segments query body
identify Method.put segments query body = identify_put segments body
identify Method.delete segments query body = identify_delete segments

-- An empty option of a query is no option, and so is an empty filter.
abbrev some_value : Option Text → Option Text
some_value none = none
some_value (some []) = none
some_value (some (c ∷ s)) = some (c ∷ s)
