-- ===== src/Phases/Tests.antt =====
-- Runs of the grouping, and its theorems at concrete items.
use mini_agent_oscoder.Prelude.{◌≡◌, refl, List, [], ◌∷◌, Text, lit}
use mini_agent_oscoder.Decimal.{print}
use mini_agent_oscoder.Phases.{
  WorkItemPhase, context, change, phase_text, PhaseGroup, build_phase_groups,
}
use mini_agent_oscoder.Phases.Grouping.{
  AreRuns, all_items, all_items-build_phase_groups, build_phase_groups-AreRuns,
}

abbrev Item : Type 0
Item = WorkItemPhase × Text

abbrev phase_of : Item → WorkItemPhase
phase_of item = item.0

abbrev time_of : Item → Text
time_of item = item.1

abbrev sample : List Item
sample = (context, lit "9") ∷ (context, lit "10") ∷ (change, lit "11") ∷ (context, lit "12") ∷ []

abbrev second : PhaseGroup Item
second = record { key = lit "1-change-11"; phase = change; items = (change, lit "11") ∷ [] }

sample_groups :
    build_phase_groups phase_of time_of sample
    ≡ record {
      key = lit "0-context-9";
      phase = context;
      items = (context, lit "9") ∷ (context, lit "10") ∷ [];
    }
      ∷ second
      ∷ record { key = lit "2-context-12"; phase = context; items = (context, lit "12") ∷ [] }
      ∷ []
unfolding build_phase_groups print phase_text lit
sample_groups = refl

all_items-build_phase_groups_example :
    all_items (build_phase_groups phase_of time_of sample) ≡ sample
all_items-build_phase_groups_example = all_items-build_phase_groups phase_of time_of sample

build_phase_groups-AreRuns_example : AreRuns phase_of 0 (build_phase_groups phase_of time_of sample)
build_phase_groups-AreRuns_example = build_phase_groups-AreRuns phase_of time_of sample
