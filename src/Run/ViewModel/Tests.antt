-- ===== src/Run/ViewModel/Tests.antt =====
-- The theorems of the view model at concrete statuses and traces.
use mini_agent_oscoder.Prelude.{◌≡◌, refl, List, [], ◌∷◌, Text, lit, text_eq}
use mini_agent_oscoder.Json.{str, end, field, TraceEvent}
use mini_agent_oscoder.Run.ViewModel.{visible_follow_up_templates}

templates :
    visible_follow_up_templates (lit "completed")
    ≡ lit "session.template.addTests" ∷ lit "session.template.explainChanges" ∷ []
unfolding visible_follow_up_templates text_eq lit
templates = refl

abbrev guidance : Text → TraceEvent
guidance name = record {
  time = lit "t";
  event = name;
  payload = field (lit "message") (str (lit "go on")) end;
}

abbrev trace : List TraceEvent
trace = guidance (lit "user.guidance.queued") ∷ guidance (lit "user.guidance.applied") ∷ []
