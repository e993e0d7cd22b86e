-- ===== src/Desktop.antt =====
-- frontend/src/desktop/runtime.ts: the daemon that the desktop host runs, and where its address ends up;
-- frontend/src/preferences.tsx: the locale and the theme, and where they are kept.
pub mod Trusted
mod Tests
use mini_agent_oscoder.Prelude.{
  ◌≡◌, refl, Bool, true, false, not, ◌&&◌, ◌||◌, Option, none, some, List, [], ◌∷◌, Text, lit,
  text_eq, starts_with, to_lower, non_empty, if◌then◌else◌,
}
use mini_agent_oscoder.I18n.{Locale}
use mini_agent_oscoder.Scripts.{Outcome, failed, replied}
use mini_agent_oscoder.Client.Answers.{ParsedUrl, configure_daemon}

pub data RuntimeState : Type 0 where
  browser starting ready failed_to_start : RuntimeState

pub record DesktopRuntimeStatus : Type 0 where
  pub embedded : Bool
  pub environment : Text
  pub state : RuntimeState
  pub daemon_url : Option Text
  pub message : Option Text

-- What an action ends with: what it returns or throws, and the base of the daemon from then on.
abbrev pub Ended : Type 0
Ended = Outcome DesktopRuntimeStatus × Text

-- What the interface asks the host for.
pub data HostCall : Type 0 where
  initialize restart save_credential : HostCall

module _ (parse : Text → Option ParsedUrl) where
  abbrev pub configured : DesktopRuntimeStatus → Text → Outcome Text → Ended
  configured status base (failed e) = (failed e, base)
  configured status base (replied origin) = (replied status, origin)

  -- `status.state === "ready" && status.daemon_url`
  abbrev pub url_of : DesktopRuntimeStatus → Option Text
  url_of status = elim status.state [
    | ready ↦ elim status.daemon_url [
      | none ↦ none
      | some url ↦ if non_empty url then some url else none
    ]
    | browser ↦ none
    | starting ↦ none
    | failed_to_start ↦ none
  ]

  abbrev pub applied : DesktopRuntimeStatus → Text → Option Text → Ended
  applied status base none = (replied status, base)
  applied status base (some url) = configured status base (configure_daemon parse url)

  unfoldable pub apply_runtime_status : DesktopRuntimeStatus → Text → Ended
  apply_runtime_status status base = applied status base (url_of status)

  -- The answer of the host.
  unfoldable pub host_answered : Outcome DesktopRuntimeStatus → Text → Ended
  unfolding apply_runtime_status
  host_answered (failed e) base = (failed e, base)
  host_answered (replied status) base = apply_runtime_status status base

  abbrev browser_status : Text → DesktopRuntimeStatus
  browser_status base = record {
    embedded = false;
    environment = lit "browser";
    state = browser;
    daemon_url = some base;
    message = none;
  }

  -- `initializeDesktopRuntime`, `restartDesktopRuntime` and `saveDesktopModelCredential`, where
  -- `is_desktop` is `isDesktopHost()`.
  unfoldable pub ask_host :
      (is_desktop : Bool) → HostCall → Outcome DesktopRuntimeStatus → Text → Ended
  unfolding host_answered
  ask_host true call answer base = host_answered answer base
  ask_host false initialize answer base = (replied (browser_status base), base)
  ask_host false restart answer base = (replied (browser_status base), base)
  ask_host false save_credential answer base =
      (failed (some (lit "Secure credential setup is only available in the desktop app")), base)

pub data Theme : Type 0 where
  light dark : Theme

-- `initialLocale`, of what is saved and the language of the browser.
unfoldable pub initial_locale : Option Text → Text → Locale
initial_locale saved language =
    let by_language = if starts_with (to_lower language) (lit "zh") then Locale.zh else Locale.en in
    elim saved [
      | none ↦ by_language
      | some s ↦
          if text_eq s (lit "zh")
          then Locale.zh
          else if text_eq s (lit "en")
          then Locale.en
          else by_language
    ]

-- `initialTheme`, of what is saved and whether the browser prefers dark colours.
unfoldable pub initial_theme : Option Text → Bool → Theme
initial_theme saved prefers_dark =
    let by_browser = if prefers_dark then dark else light in
    elim saved [
      | none ↦ by_browser
      | some s ↦
          if text_eq s (lit "light")
          then light
          else if text_eq s (lit "dark")
          then dark
          else by_browser
    ]

-- What the effects keep in the storage of the browser.
abbrev pub stored_locale : Locale → Text
stored_locale locale = elim locale [ Locale.zh ↦ lit "zh" | Locale.en ↦ lit "en" ]

abbrev pub stored_theme : Theme → Text
stored_theme theme = elim theme [ light ↦ lit "light" | dark ↦ lit "dark" ]

abbrev pub document_language : Locale → Text
document_language locale = elim locale [ Locale.zh ↦ lit "zh-CN" | Locale.en ↦ lit "en" ]

abbrev pub theme_color : Theme → Text
theme_color theme = elim theme [ dark ↦ lit "#111214" | light ↦ lit "#f4f5f7" ]

unfoldable pub toggle_theme : Theme → Theme
toggle_theme light = dark
toggle_theme dark = light

-- The preferences of a page that is opened again are those that were chosen last, whatever the browser
-- prefers; and two changes of the theme are none.
pub preferences-kept :
    (locale : Locale) (theme : Theme) (language : Text) (prefers_dark : Bool)
    → (initial_locale (some (stored_locale locale)) language ≡ locale)
      × (initial_theme (some (stored_theme theme)) prefers_dark ≡ theme)
      × (toggle_theme (toggle_theme theme) ≡ theme)
unfolding initial_locale initial_theme toggle_theme text_eq lit
preferences-kept Locale.zh light language prefers_dark = (refl, refl, refl)
preferences-kept Locale.zh dark language prefers_dark = (refl, refl, refl)
preferences-kept Locale.en light language prefers_dark = (refl, refl, refl)
preferences-kept Locale.en dark language prefers_dark = (refl, refl, refl)
