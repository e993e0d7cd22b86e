-- ===== src/Client/Routes/Complete.antt =====
-- The calls of frontend/src/api/client.ts, and what the reader of requests makes of them.
use mini_agent_oscoder.Prelude.{
  ◌≡◌, ap, refl, inl, inr, ◌⊎◌, Option, none, some, List, [], ◌∷◌, Text, text_eq, lit, keep,
  non_empty,
}
use mini_agent_oscoder.Json.{Value, property}
use mini_agent_oscoder.Json
use mini_agent_oscoder.Client.{Method, DaemonCall, RunPart, path_of, route, endpoint}
use mini_agent_oscoder.Client.Uri.{target}
use mini_agent_oscoder.Client.Uri.Paths.{IsPlain, path_segments, path_segments-target}
use mini_agent_oscoder.Client.Routes.{identify, some_value}

-- A call as its request tells it: an empty option, and an empty filter, are as if they were missing.
abbrev pub normal : DaemonCall → DaemonCall
normal (DaemonCall.get_agent_pack project mode) =
    DaemonCall.get_agent_pack project (some_value mode)
normal (DaemonCall.get_agent_pack_drift project mode) =
    DaemonCall.get_agent_pack_drift project (some_value mode)
normal (DaemonCall.save_agent_pack_version project mode) =
    DaemonCall.save_agent_pack_version project (some_value mode)
normal (DaemonCall.get_model_status mode) = DaemonCall.get_model_status (some_value mode)
normal (DaemonCall.get_model_config mode) = DaemonCall.get_model_config (some_value mode)
normal (DaemonCall.get_evaluation_summary mode) =
    DaemonCall.get_evaluation_summary (some_value mode)
normal (DaemonCall.get_history_runs filters) =
    DaemonCall.get_history_runs (keep (λ (key, value). non_empty value) filters)
normal call = call

-- A call is read back from its route.
identify-route :
    (call : DaemonCall)
    → let r = route call in identify r.method r.segments r.query r.body ≡ some (normal call)
unfolding identify route text_eq lit Json.get property
identify-route DaemonCall.health = refl
identify-route DaemonCall.select_project_directory = refl
identify-route DaemonCall.get_history_projects = refl
identify-route (DaemonCall.open_project path) = refl
identify-route (DaemonCall.get_agent_pack_versions project) = refl
identify-route (DaemonCall.get_project_protocols project) = refl
identify-route (DaemonCall.get_project_file_content project path) = refl
identify-route (DaemonCall.create_run body) = refl
identify-route (DaemonCall.get_run run) = refl
identify-route (DaemonCall.start_run run) = refl
identify-route (DaemonCall.cancel_run run) = refl
identify-route (DaemonCall.replay_run run) = refl
identify-route (DaemonCall.steer_run run text) = refl
identify-route (DaemonCall.accept_run_changes run text) = refl
identify-route (DaemonCall.approve_action run text) = refl
identify-route (DaemonCall.rollback_run run text) = refl
identify-route (DaemonCall.deny_action run approval_id reason) = refl
identify-route (DaemonCall.compact_context run ratio confirmed) = refl
identify-route (DaemonCall.update_governance run profile overrides) = refl
identify-route (DaemonCall.update_extensions run body) = refl
identify-route (DaemonCall.create_skill run body) = refl
identify-route (DaemonCall.create_mcp_server run body) = refl
identify-route (DaemonCall.create_hook run body) = refl
identify-route (DaemonCall.create_memory run body) = refl
identify-route (DaemonCall.update_memory run memory_id body) = refl
identify-route (DaemonCall.delete_memory run memory_id) = refl
identify-route (DaemonCall.get_history_runs filters) = refl
identify-route (DaemonCall.get_history_run run) = refl
identify-route (DaemonCall.delete_history_run run) = refl
identify-route (DaemonCall.compare_history_runs left right) = refl
identify-route (DaemonCall.archive_history_run run is_archived) = refl
identify-route (DaemonCall.get_agent_pack project none) = refl
identify-route (DaemonCall.get_agent_pack project (some [])) = refl
identify-route (DaemonCall.get_agent_pack project (some (c ∷ mode))) = refl
identify-route (DaemonCall.get_agent_pack_drift project none) = refl
identify-route (DaemonCall.get_agent_pack_drift project (some [])) = refl
identify-route (DaemonCall.get_agent_pack_drift project (some (c ∷ mode))) = refl
identify-route (DaemonCall.save_agent_pack_version project none) = refl
identify-route (DaemonCall.save_agent_pack_version project (some [])) = refl
identify-route (DaemonCall.save_agent_pack_version project (some (c ∷ mode))) = refl
identify-route (DaemonCall.get_model_status none) = refl
identify-route (DaemonCall.get_model_status (some [])) = refl
identify-route (DaemonCall.get_model_status (some (c ∷ mode))) = refl
identify-route (DaemonCall.get_model_config none) = refl
identify-route (DaemonCall.get_model_config (some [])) = refl
identify-route (DaemonCall.get_model_config (some (c ∷ mode))) = refl
identify-route (DaemonCall.get_evaluation_summary none) = refl
identify-route (DaemonCall.get_evaluation_summary (some [])) = refl
identify-route (DaemonCall.get_evaluation_summary (some (c ∷ mode))) = refl
identify-route (DaemonCall.get_project_files project []) = refl
identify-route (DaemonCall.get_project_files project (c ∷ query)) = refl
identify-route (DaemonCall.resume_run run none restore) = refl
identify-route (DaemonCall.resume_run run (some checkpoint) restore) = refl
identify-route (DaemonCall.get_part RunPart.admission run) = refl
identify-route (DaemonCall.get_part RunPart.model_route run) = refl
identify-route (DaemonCall.get_part RunPart.formal_program run) = refl
identify-route (DaemonCall.get_part RunPart.conversation run) = refl
identify-route (DaemonCall.get_part RunPart.artifacts run) = refl
identify-route (DaemonCall.get_part RunPart.report run) = refl
identify-route (DaemonCall.get_part RunPart.context run) = refl
identify-route (DaemonCall.get_part RunPart.evidence run) = refl
identify-route (DaemonCall.get_part RunPart.memory run) = refl
identify-route (DaemonCall.get_part RunPart.governance run) = refl
identify-route (DaemonCall.get_part RunPart.extensions run) = refl
identify-route (DaemonCall.get_part RunPart.trace run) = refl
identify-route (DaemonCall.get_part RunPart.approval run) = refl
identify-route (DaemonCall.get_part RunPart.checkpoints run) = refl

-- A request has a path of one piece or more.
identify-empty :
    (method : Method) (query : List (Text × Text)) (body : Option Value)
    → identify method [] query body ≡ none
unfolding identify
identify-empty Method.get query body = refl
identify-empty Method.post query body = refl
identify-empty Method.put query body = refl
identify-empty Method.delete query body = refl

List-cases : {A : Type 0} (xs : List A) → (xs ≡ []) ⊎ ((x : A) × (rest : List A) × (xs ≡ x ∷ rest))
List-cases [] = inl refl
List-cases (x ∷ rest) = inr (x, rest, refl)

-- Where no identifier in the path of a call holds a slash or a question mark, and its target can be
-- written, so that no value of its query throws, its function and all its arguments are read back from the method of its request, the path of the target that is written of
-- it, the pairs of its query before they are encoded, and its body; up to options that are empty.
pub identify-endpoint :
    (url_search_params : Text → Text) (call : DaemonCall) (url : Text)
    → IsPlain (route call).segments
    → target url_search_params (endpoint call) ≡ some url
    → let r = endpoint call in
      identify r.method (path_segments url) r.query r.body ≡ some (normal call)
unfolding endpoint
identify-endpoint url_search_params call url h k = elim (List-cases (route call).segments) [
  | inl e ↦
      let r = route call in
      let known : identify r.method [] r.query r.body ≡ some (normal call) =
        rw (← e) (identify-route call) in
      cc (known, identify-empty r.method r.query r.body)
  | inr (p, ps, e) ↦
      let q =
        path_segments-target url_search_params (endpoint call) url p ps (ap path_of e) (rw e at h)
          k in
      rw (q, ← e) (identify-route call)
]
