-- ===== src/Desktop/Trusted.antt =====
-- Which daemon frontend/src/desktop/runtime.ts lets the interface talk to.
use mini_agent_oscoder.Prelude.{
  ◌≡◌, refl, inl, inr, ◌⊎◌, Bool, true, false, not, ◌||◌, Bool-cases, Option, none, some, List, [],
  ◌∷◌, Text, lit, text_eq, one_of, if◌then◌else◌, arith,
}
use mini_agent_oscoder.Scripts.{Outcome, failed, replied}
use mini_agent_oscoder.Client.Answers.{ParsedUrl, is_loopback, configure_daemon}
use mini_agent_oscoder.Desktop.{
  DesktopRuntimeStatus, configured, applied, url_of, apply_runtime_status, host_answered, HostCall,
  initialize, restart, save_credential, ask_host,
}

module _ (parse : Text → Option ParsedUrl) where
  -- The base of an address on this machine.
  abbrev pub IsLocal : Text → Type 0
  IsLocal base =
      (url : Text) × (parsed : ParsedUrl) × (parse url ≡ some parsed)
      × (is_loopback parsed ≡ true)
      × (base ≡ parsed.origin)

  parsed-IsLocal :
      (url : Text) (found : Option ParsedUrl) (origin : Text)
      → parse url ≡ found
      → (elim found [
        | none ↦ failed none
        | some parsed ↦
            if not (text_eq parsed.protocol (lit "http:"))
              || not (one_of ("127.0.0.1" ∷ "localhost" ∷ []) parsed.hostname)
            then failed (some (lit "Desktop Daemon must use a loopback HTTP URL"))
            else replied parsed.origin
      ])
        ≡ replied origin
      → IsLocal origin
  parsed-IsLocal url none origin h e = cc
  parsed-IsLocal url (some parsed) origin h e =
      elim (Bool-cases (
        not (text_eq parsed.protocol (lit "http:"))
        || not (one_of ("127.0.0.1" ∷ "localhost" ∷ []) parsed.hostname))) [
          | inl g ↦ cc (rw g at e)
          | inr g ↦
              let q : replied parsed.origin ≡ replied origin = rw g at e in
              (url, parsed, h, ground (arith, g), cc q)
        ]

  configure_daemon-IsLocal :
      (url origin : Text) → configure_daemon parse url ≡ replied origin → IsLocal origin
  unfolding configure_daemon
  configure_daemon-IsLocal url origin e = parsed-IsLocal url (parse url) origin refl e

  -- The base is as it was, or that of an address on this machine.
  abbrev pub IsTrusted : Text → Text → Type 0
  IsTrusted before after = (after ≡ before) ⊎ IsLocal after

  configured-IsTrusted :
      (status : DesktopRuntimeStatus) (base url : Text) (out : Outcome Text)
      → configure_daemon parse url ≡ out
      → IsTrusted base (configured parse status base out).1
  configured-IsTrusted status base url (failed e) h = inl refl
  configured-IsTrusted status base url (replied origin) h =
      inr (configure_daemon-IsLocal url origin h)

  apply_runtime_status-IsTrusted :
      (status : DesktopRuntimeStatus) (base : Text) (found : Option Text)
      → IsTrusted base (applied parse status base found).1
  apply_runtime_status-IsTrusted status base none = inl refl
  apply_runtime_status-IsTrusted status base (some url) =
      configured-IsTrusted status base url (configure_daemon parse url) refl

  ask_host-IsTrusted :
      (is_desktop : Bool) (call : HostCall) (answer : Outcome DesktopRuntimeStatus) (base : Text)
      → IsTrusted base (ask_host parse is_desktop call answer base).1
  unfolding ask_host host_answered apply_runtime_status
  ask_host-IsTrusted true call (failed e) base = inl refl
  ask_host-IsTrusted true call (replied status) base =
      apply_runtime_status-IsTrusted status base (url_of parse status)
  ask_host-IsTrusted false initialize answer base = inl refl
  ask_host-IsTrusted false restart answer base = inl refl
  ask_host-IsTrusted false save_credential answer base = inl refl

  -- The base after a series of actions, each with the answer of the host.
  unfoldable pub base_after : Bool → Text → List (HostCall × Outcome DesktopRuntimeStatus) → Text
  unfolding ask_host
  base_after is_desktop base [] = base
  base_after is_desktop base ((call, answer) ∷ rest) =
      base_after is_desktop (ask_host parse is_desktop call answer base).1 rest

  -- Whatever the desktop host reports, and however often it is asked, the interface talks to the daemon
  -- that it was built for, or to one under an http address of this machine.
  pub base_after-IsTrusted :
      (is_desktop : Bool) (built start : Text)
      (asked : List (HostCall × Outcome DesktopRuntimeStatus))
      → IsTrusted built start
      → IsTrusted built (base_after is_desktop start asked)
  unfolding base_after
  base_after-IsTrusted is_desktop built start [] h = h
  base_after-IsTrusted is_desktop built start ((call, answer) ∷ rest) h =
      base_after-IsTrusted is_desktop built (ask_host parse is_desktop call answer start).1 rest
        (elim (ask_host-IsTrusted is_desktop call answer start) [ inl e ↦ rw e h | inr l ↦ inr l ])
