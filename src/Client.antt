-- ===== src/Client.antt =====
-- frontend/src/api/client.ts: the requests to the daemon. A call is one function of `daemonApi` at its
-- arguments; what it carries in its body beside texts is a JSON value.
pub mod Uri
pub mod Routes
pub mod Answers
mod Tests
use Prim.Native.String.{String}
use mini_agent_oscoder.Prelude.{
  ◌≡◌, ℕ, Bool, true, false, not, ◌&&◌, ◌||◌, Option, none, some, List, [], ◌∷◌, ◌++◌, map, keep,
  join, Text, text_eq, lit, non_empty, or_default, if◌then◌else◌,
}
use mini_agent_oscoder.Json.{null, bool, str, arr, nil, cons, obj, end, field, Value, Fields}

pub data Method : Type 0 where
  get post put delete : Method

-- How the values of a query are written: by `encodeURIComponent`, or by `URLSearchParams`.
pub data QueryEncoding : Type 0 where
  component form : QueryEncoding

-- A request, its path as the template of it gives it, before its query is appended.
pub record HttpRequest : Type 0 where
  pub method : Method
  pub path : Text
  pub query : List (Text × Text)
  pub encoding : QueryEncoding
  pub body : Option Value

-- The same with the path in the pieces between the slashes of the template.
pub record Route : Type 0 where
  pub method : Method
  pub segments : List Text
  pub query : List (Text × Text)
  pub encoding : QueryEncoding
  pub body : Option Value

pub data RunPart : Type 0 where
  admission model_route formal_program conversation artifacts report context evidence memory :
      RunPart
  governance extensions trace approval checkpoints : RunPart

pub data DaemonCall : Type 0 where
  health select_project_directory get_history_projects : DaemonCall
  open_project : (path : Text) → DaemonCall
  get_agent_pack get_agent_pack_drift save_agent_pack_version :
      (project : Text) → (mode : Option Text) → DaemonCall
  get_agent_pack_versions get_project_protocols : (project : Text) → DaemonCall
  get_project_files get_project_file_content : (project query : Text) → DaemonCall
  create_run : Value → DaemonCall
  get_run start_run cancel_run replay_run : (run : Text) → DaemonCall
  get_part : (part : RunPart) → (run : Text) → DaemonCall
  resume_run : (run : Text) → (checkpoint : Option Text) → (restore_workspace : Bool) → DaemonCall
  steer_run accept_run_changes approve_action rollback_run : (run text : Text) → DaemonCall
  deny_action : (run approval reason : Text) → DaemonCall
  compact_context : (run : Text) → (target_ratio : Value) → (confirmed : Bool) → DaemonCall
  update_governance : (run : Text) → (sandbox_profile tool_overrides : Value) → DaemonCall
  update_extensions create_skill create_mcp_server create_hook create_memory :
      (run : Text) → Value → DaemonCall
  update_memory : (run memory : Text) → Value → DaemonCall
  delete_memory : (run memory : Text) → DaemonCall
  get_model_status get_model_config get_evaluation_summary : (project : Option Text) → DaemonCall
  get_history_runs : (filters : List (Text × Text)) → DaemonCall
  get_history_run delete_history_run : (run : Text) → DaemonCall
  compare_history_runs : (left right : Text) → DaemonCall
  archive_history_run : (run : Text) → (archived : Bool) → DaemonCall

abbrev pub part_segment : RunPart → Text
part_segment admission = lit "admission"
part_segment model_route = lit "model-route"
part_segment formal_program = lit "formal-program"
part_segment conversation = lit "conversation"
part_segment artifacts = lit "artifacts"
part_segment report = lit "report"
part_segment context = lit "context"
part_segment evidence = lit "evidence"
part_segment memory = lit "memory"
part_segment governance = lit "governance"
part_segment extensions = lit "extensions"
part_segment trace = lit "trace"
part_segment approval = lit "approval"
part_segment checkpoints = lit "checkpoints"

-- The pieces of a path, each after a slash; an identifier among them is written as it is.
abbrev pub path_of : List Text → Text
path_of segments = b'/' ∷ join (b'/' ∷ []) segments

-- `value ? `?key=${…}` : ""`
abbrev pub query_of : Text → Option Text → List (Text × Text)
query_of key none = []
query_of key (some []) = []
query_of key (some (c ∷ value)) = (key, c ∷ value) ∷ []

abbrev asks : List Text → List (Text × Text) → Route
asks segments query = record {
  method = get;
  segments = segments;
  query = query;
  encoding = component;
  body = none;
}

abbrev sends : Method → List Text → Option Value → Route
sends method segments body = record {
  method = method;
  segments = segments;
  query = [];
  encoding = component;
  body = body;
}

abbrev pub project_path : Text → List Text → List Text
project_path project rest = lit "projects" ∷ project ∷ rest

abbrev pub run_path : Text → List Text → List Text
run_path run rest = lit "runs" ∷ run ∷ rest

-- The filters of `getHistoryRuns` are their entries, by `Object.entries`, those that are undefined left
-- out, and each value by `String`.
-- `checkpoint_id` is left out of the body if it is undefined.
abbrev checkpoint_field : Option Text → Fields → Fields
checkpoint_field none fields = fields
checkpoint_field (some checkpoint) fields = field (lit "checkpoint_id") (str checkpoint) fields

unfoldable pub route : DaemonCall → Route
route health = asks (lit "health" ∷ []) []
route select_project_directory = sends post (lit "projects" ∷ lit "select-directory" ∷ []) none
route (open_project path) =
    sends post (lit "projects" ∷ lit "open" ∷ []) (some (obj (field (lit "path") (str path) end)))
route (get_agent_pack project mode) =
    asks (project_path project (lit "agent-pack" ∷ [])) (query_of (lit "mode") mode)
route (get_agent_pack_versions project) =
    asks (project_path project (lit "agent-pack" ∷ lit "versions" ∷ [])) []
route (get_agent_pack_drift project mode) =
    asks (project_path project (lit "agent-pack" ∷ lit "drift" ∷ [])) (query_of (lit "mode") mode)
route (get_project_protocols project) = asks (project_path project (lit "protocols" ∷ [])) []
route (get_project_files project query) =
    asks (project_path project (lit "files" ∷ [])) (query_of (lit "query") (some query))
route (get_project_file_content project path) =
    asks (project_path project (lit "files" ∷ lit "content" ∷ [])) ((lit "path", path) ∷ [])
route (save_agent_pack_version project mode) = record {
  method = post;
  segments = project_path project (lit "agent-pack" ∷ lit "versions" ∷ []);
  query = query_of (lit "mode") mode;
  encoding = component;
  body = none;
}
route (create_run body) = sends post (lit "runs" ∷ []) (some body)
route (start_run run) = sends post (run_path run (lit "start" ∷ [])) none
route (resume_run run checkpoint restore) =
    sends post (run_path run (lit "resume" ∷ [])) (
      some (obj (checkpoint_field checkpoint (field (lit "restore_workspace") (bool restore) end))))
route (cancel_run run) = sends post (run_path run (lit "cancel" ∷ [])) none
route (steer_run run message) =
    sends post (run_path run (lit "steer" ∷ []))
      (some (obj (field (lit "message") (str message) end)))
route (get_run run) = asks (run_path run []) []
route (get_part part run) = asks (run_path run (part_segment part ∷ [])) []
route (compact_context run ratio confirmed) =
    sends post (run_path run (lit "context" ∷ lit "compact" ∷ [])) (
      some (
        obj (
          field (lit "force") (bool true)
            (field (lit "target_ratio") ratio (field (lit "confirmed") (bool confirmed) end)))))
route (update_governance run profile overrides) = sends put (run_path run (lit "governance" ∷ [])) (
    some (obj (field (lit "sandbox_profile") profile (field (lit "tool_overrides") overrides end))))
route (update_extensions run settings) =
    sends put (run_path run (lit "extensions" ∷ [])) (some settings)
route (create_skill run body) =
    sends post (run_path run (lit "extensions" ∷ lit "skills" ∷ [])) (some body)
route (create_mcp_server run body) =
    sends post (run_path run (lit "extensions" ∷ lit "mcp-servers" ∷ [])) (some body)
route (create_hook run body) =
    sends post (run_path run (lit "extensions" ∷ lit "hooks" ∷ [])) (some body)
route (create_memory run input) = sends post (run_path run (lit "memory" ∷ [])) (some input)
route (update_memory run memory_id input) =
    sends put (run_path run (lit "memory" ∷ memory_id ∷ [])) (some input)
route (delete_memory run memory_id) =
    sends delete (run_path run (lit "memory" ∷ memory_id ∷ [])) none
route (rollback_run run checkpoint) =
    sends post (run_path run (lit "rollback" ∷ []))
      (some (obj (field (lit "checkpoint_id") (str checkpoint) end)))
route (accept_run_changes run reason) =
    sends post (run_path run (lit "changes" ∷ lit "accept" ∷ []))
      (some (obj (field (lit "reason") (str reason) end)))
route (approve_action run approval_id) = sends post (run_path run (lit "approve" ∷ [])) (
    some (
      obj (
        field (lit "approval_id") (str approval_id)
          (field (lit "mode") (str (lit "approve_once")) end))))
route (deny_action run approval_id reason) = sends post (run_path run (lit "deny" ∷ [])) (
    some
      (obj (field (lit "approval_id") (str approval_id) (field (lit "reason") (str reason) end))))
route (replay_run run) = sends post (run_path run (lit "replay" ∷ [])) none
route (get_model_status project) =
    asks (lit "models" ∷ lit "status" ∷ []) (query_of (lit "project_id") project)
route (get_model_config project) =
    asks (lit "models" ∷ lit "config" ∷ []) (query_of (lit "project_id") project)
route get_history_projects = asks (lit "history" ∷ lit "projects" ∷ []) []
route (get_history_runs filters) = record {
  method = get;
  segments = lit "history" ∷ lit "runs" ∷ [];
  query = keep (λ (key, value). non_empty value) filters;
  encoding = form;
  body = none;
}
route (get_history_run run) = asks (lit "history" ∷ lit "runs" ∷ run ∷ []) []
route (compare_history_runs left right) =
    sends post (lit "history" ∷ lit "compare" ∷ [])
      (some (obj (field (lit "run_ids") (arr (cons (str left) (cons (str right) nil))) end)))
route (archive_history_run run archived) =
    sends put (lit "history" ∷ lit "runs" ∷ run ∷ lit "archive" ∷ [])
      (some (obj (field (lit "archived") (bool archived) end)))
route (delete_history_run run) = sends delete (lit "history" ∷ lit "runs" ∷ run ∷ []) none
route (get_evaluation_summary project) =
    asks (lit "evaluation" ∷ lit "summary" ∷ []) (query_of (lit "project_id") project)

-- What each function of `daemonApi` sends.
unfoldable pub endpoint : DaemonCall → HttpRequest
unfolding route
endpoint call =
    let r = route call in
    record {
      method = r.method;
      path = path_of r.segments;
      query = r.query;
      encoding = r.encoding;
      body = r.body;
    }
