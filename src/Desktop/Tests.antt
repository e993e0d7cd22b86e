-- ===== src/Desktop/Tests.antt =====
-- A desktop host that reports two daemons, and the theorems at it.
use mini_agent_oscoder.Prelude.{
  ◌≡◌, refl, inl, true, none, some, [], ◌∷◌, Option, Text, lit, text_eq,
}
use mini_agent_oscoder.Scripts.{Outcome, failed, replied}
use mini_agent_oscoder.Client.Answers.{ParsedUrl, configure_daemon}
use mini_agent_oscoder.Desktop.{DesktopRuntimeStatus, RuntimeState, HostCall}
use mini_agent_oscoder.Desktop.Trusted.{IsTrusted, base_after, base_after-IsTrusted}

-- Every address is on this machine.
abbrev parse : Text → Option ParsedUrl
parse url = some (record { protocol = lit "http:"; hostname = lit "localhost"; origin = url })

abbrev daemon_at : Text → Outcome DesktopRuntimeStatus
daemon_at url = replied (record {
  embedded = true;
  environment = lit "production";
  state = RuntimeState.ready;
  daemon_url = some url;
  message = none;
})

base_after-IsTrusted_example : IsTrusted parse (lit "http://127.0.0.1:8000") (
    base_after parse true (lit "http://127.0.0.1:8000") (
      (HostCall.initialize, daemon_at (lit "http://localhost:1"))
      ∷ (HostCall.restart, failed none)
      ∷ []))
base_after-IsTrusted_example =
    base_after-IsTrusted parse true (lit "http://127.0.0.1:8000") (lit "http://127.0.0.1:8000")
      ((HostCall.initialize, daemon_at (lit "http://localhost:1"))
        ∷ (HostCall.restart, failed none)
        ∷ [])
      (inl refl)

moved :
    base_after parse true (lit "old") ((HostCall.initialize, daemon_at (lit "new")) ∷ [])
    ≡ lit "new"
unfolding base_after configure_daemon text_eq lit
moved = refl
