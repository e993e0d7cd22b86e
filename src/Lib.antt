-- ===== src/Lib.antt =====
-- A model of the client side of MiniAgentOS Coder: the TypeScript program of
-- frontend/src, which shows one run of the coding agent, follows the stream of
-- its trace and sends the user's decisions to the daemon.
--
-- The program's parts, and where they are modelled.
--
-- Prelude: texts (lists of UTF-16 code units; toLowerCase changes the ASCII
--   letters alone), lists and tests.
-- Decimal: the decimal digits that a template string prints for an index.
-- Json: the payload of a trace event, which the source types as unknown, and the
--   readers of frontend/src/activity/workItems.ts (asRecord, stringValue,
--   numberValue, arrayOfStrings, firstPresent). A property missing from a record
--   reads as `undefined`, which every reader treats as absent.
-- Phases: frontend/src/activity/phases.ts, the phases of the feed and
--   buildPhaseGroups. Its loop, which changes the last group in place, is a left
--   fold of add_item over the groups found so far.
-- WorkItems: frontend/src/activity/workItems.ts. The base module holds the
--   readers of an event, Filter decides which events the feed shows (isProcessEvent,
--   isResolvedModelRequest, completedActionIds), Present classifies an event
--   (workCategory, workPresentation, workPhase), and Describe finds its words
--   (activityChips, executedTitle, ...), with processEvent and buildWorkItems in
--   Describe.Events. The translator is an argument there, as in the source.
-- I18n: frontend/src/i18n.ts, the functions. The tables of texts are a parameter.
--   translateKnownText calls itself for a part of its text, so the model counts
--   calls down from the length of the text, which is enough.
-- Markdown: frontend/src/components/MarkdownDocument.tsx, parseMarkdown as a loop
--   over a record of its variables, and Inline, the code and strong parts of a line.
-- Diff: frontend/src/components/DiffReview.tsx (chunks of a patch, their lines
--   and counts, buildDiffFiles) and Focus, frontend/src/run/patchFocus.ts with
--   the hunk buttons of WorkspaceFilesDialog.tsx. A Map is a list of pairs without
--   repeated keys, in the order of insertion, which is the order that it lists.
-- Run.Helpers: frontend/src/run/helpers.ts (paths, checkpoints). The sort of
--   checkpoints is an insertion sort, stable as the language demands of its own.
-- Run.Diagnosis: frontend/src/run/completionDiagnosis.ts.
-- Run.ViewModel: frontend/src/run/viewModel.ts (statuses, steering messages and the rest of
--   what the page shows of a run).
-- Session: the state of one open run, which frontend/src/pages/Workbench.tsx
--   keeps in its React state. Each set function is an update of one field, the
--   functional form reading the newest state. Subscription is the handler of
--   frontend/src/run/useRunSubscription.ts, with the requests that it sends as a
--   list of pending ones; a step delivers an event or the answer to a pending
--   request, in any order. A subscription keeps the project of the render that made
--   it, as its closure does. Loading is applyLoadedRun and the resets of Workbench.tsx.
-- Commands: frontend/src/taskCommands.ts.
-- Scripts: an action of the interface as updates of its state and requests that
--   it awaits, each with a continuation for the answer or the failure, so that the
--   catch and finally of the source are written out. run_script and sent run a
--   script against a daemon; Ends says what holds at its end whatever else changes
--   the state at every await, and Keeps what each of its updates keeps. Of several
--   requests that fail together, the first in their list is reported.
-- Keyed: lists read as maps by a key of their elements, as the source builds a Map.
-- Sorting: the stable sort of the language, by a test of the order.
-- Workbench: the actions of frontend/src/pages/Workbench.tsx as scripts.
--   The project of the render whose action runs is the one of the state that the
--   action is given; loadProjectRuns asks for nothing without a project.
--   Launch has prepareRun, launchRun and what goes on from the history, Control the
--   cancelling, steering and approving of a run, Panels the context, memory,
--   governance and extensions, Projects the connection, project and model, Review
--   the hook frontend/src/run/useWorkspaceReview.ts, with Review.Buttons for what its
--   buttons in the files dialog start.
-- History: frontend/src/components/RunCenter.tsx, the list of earlier runs, the
--   selection of two to compare, and the shown detail. The base module is the state and
--   its updates; in Actions, scripts_of gives the scripts of every click and timer.
--   Patches is its preview of a patch (HistoryPatchPreview), Durations its
--   formatDuration, in whole milliseconds.
-- Files: frontend/src/components/WorkspaceFilesDialog.tsx. The base module is the
--   displayed list, with localeCompare as an argument; Dialog the state, its effects
--   and requests, where the cancelled flag of an effect is the number of its last
--   run; Sizes the printing of sizes and the buttons of a review.
-- Extensions: frontend/src/components/ExtensionPanel.tsx. Words is splitCommand,
--   whose regular expression is read as a scan from left to right; its fuel is the
--   length of the text, of which each round takes at least one unit. Ids is
--   extensionId, with the NFKD form and the time stamp as arguments. Evidence finds
--   the last event of each extension.
-- Client: frontend/src/api/client.ts. endpoint gives the request that each function
--   of daemonApi sends, its path joined from the pieces of the template; Uri the target that it is sent to, with encodeURIComponent
--   written out and URLSearchParams as an argument; Answers the function request and
--   configureDesktopDaemon, with the URL parser as an argument. Routes reads a
--   request independently, as a server would.
-- AgentPacks: frontend/src/run/useAgentPackState.ts, its effect and its dialog.
-- Replay: frontend/src/components/TraceReplayPanel.tsx, the player of a trace.
-- Feed: frontend/src/components/ActivityFeed.tsx, the duration and the breakdown of the
--   work above the feed, and the time of a phase.
-- Trace: the counts that frontend/src/components/RuntimePanels.tsx and
--   RuntimeConfigStrip.tsx read from a trace.
-- Formal: the effect of a formal program in RuntimePanels.tsx (parseEffectExpression). The
--   regular expression is read from the left, its first group as long as it can be.
-- Desktop: frontend/src/desktop/runtime.ts and frontend/src/preferences.tsx, with the
--   answers of the desktop host and the stored texts as arguments.
--
-- The session's steps are a relation: which answers the daemon gives, and when,
-- is left open. All is by structural recursion but translateKnownText,
-- splitCommand and the printing of a number, whose rounds are counted down from a
-- number that is enough. Numbers are natural numbers: the source only counts,
-- compares, rounds and indexes here.
--
-- Not modelled: frontend/src/reportLocalization.ts and run/localizedText.ts, the
-- rewriting of legacy formal terms in components/RuntimePanels.tsx, the chips of
-- components/ActivityFeed.tsx, the forms of the memory, context, governance and
-- recovery panels, the markup of the components and their styles, the tables of
-- texts, fetch and EventSource (their answers are arguments of the steps and
-- scripts), dates in the reader's format, the desktop shell in Rust, and the
-- backend in Python.

pub mod AgentPacks
pub mod Client
pub mod Commands
pub mod Decimal
pub mod Desktop
pub mod Diff
pub mod Extensions
pub mod Feed
pub mod Files
pub mod Formal
pub mod History
pub mod I18n
pub mod Json
pub mod Keyed
pub mod Markdown
pub mod Phases
pub mod Prelude
pub mod Replay
pub mod Run
pub mod Scripts
pub mod Session
pub mod Sorting
pub mod Trace
pub mod WorkItems
pub mod Workbench
