-- ===== src/Agents/Running.antt =====
-- personas/agent_state_reducer.py: what an agent is shown as, beside the phases that run.
use hermes_lab.Prelude.{String, ◌≡◌, refl, List, [], ◌∷◌, Bool, true, false, arith, eq_iff}
use hermes_lab.Dict.{Dict, lookup, has}
use hermes_lab.Agents.Defs.{AgentStatus, running, idle, AgentEvent, Agents, phases_of, is_nonempty}
use hermes_lab.Agents.Phases.{status_of, Agrees, AllPlain, apply_events, apply_events-Agrees}
use hermes_lab.Agents.Tracks.{Phase, label, AllRead, Tracks, runs_after, apply_events-Tracks}

-- The status that the phases of an agent call for.
pub record Shows (status : AgentStatus) (runs : Phase → Bool) : Type 0 where
  pub busy : (p : Phase) → runs p ≡ true → status ≡ running
  pub free : ((p : Phase) → runs p ≡ false) → status ≡ idle

abbrev pub nobody : Agents
nobody = record { runtime_status = []; runtime_tasks = []; running_phases = [] }

has-nonempty : (k : String) (d : Dict String) → has k d ≡ true → is_nonempty d ≡ true
unfolding lookup
has-nonempty k [] h = h
has-nonempty k (e ∷ d) h = refl

empty-has : (d : Dict String) → ((k : String) → has k d ≡ true → ⊥) → is_nonempty d ≡ false
unfolding lookup
empty-has [] h = refl
empty-has ((k, v) ∷ d) h = absurd (h k (ground (arith, eq_iff k k)))

module _ (strip lower : String → String) (read : String → Phase) where
  Tracks-Shows :
      (id : String) (a : Agents) (o : Phase → Bool)
      → Agrees a
      → Tracks strip lower read (phases_of id a) o
      → Shows (status_of id a) o
  Tracks-Shows id a o agrees h = record {
    busy = λ p on. ground (arith, agrees id, has-nonempty (label p) (phases_of id a), h.held p on);
    free = λ none_on. ground (
      arith,
      agrees id,
      empty-has (phases_of id a) (λ k there. absurd (cc ((h.kept k there).0, none_on (read k)))),
    );
  }

  -- From an empty reducer and for every agent, where phases start and complete in any overlap, and
  -- agents finish or are cancelled, under ids that are stable under normalization, with phases that
  -- can be read back from `<job>:<order or name>`: the agent is shown as RUNNING where one of its
  -- phases runs by the events, and as IDLE where none does. By the events, a phase runs from its
  -- start to its completion or to any cancellation of the agent, of whichever job.
  pub apply_events-Shows :
      (id : String) (es : List AgentEvent)
      → AllPlain strip lower es
      → AllRead strip lower read es
      → Shows
          (status_of id (apply_events strip lower es nobody))
          (runs_after strip lower read id es (λ p. false))
  unfolding lookup
  apply_events-Shows id es plain reads =
      Tracks-Shows id (apply_events strip lower es nobody) _
        (apply_events-Agrees strip lower es nobody plain (λ i. refl))
        (apply_events-Tracks strip lower read id es nobody (λ p. false) plain reads
          (record { kept = λ k there. absurd (cc); held = λ p on. absurd (cc) }))
