-- ===== src/Agents/Phases.antt =====
-- An agent is shown as running as long as one of its phases is.
use hermes_lab.Prelude.{
  Bool-cases, inl, inr, String, ◌≡◌, refl, Option, none, some, List, [], ◌∷◌, Bool, true, false,
  arith, ◌==◌, eq_iff, if◌then◌else◌,
}
use hermes_lab.Dict.{Dict, lookup, insert, remove}
use hermes_lab.Dict.Laws.{lookup-insert, lookup-remove}
use hermes_lab.Capacity.{get_or}
use hermes_lab.Agents.Defs.{
  AgentStatus, running, idle, Kind, phase_started, phase_completed, phase_other, agent_finished,
  agent_cancelled, AgentEvent, Agents, phases_of, is_nonempty, normalize_agent_id, set_agent_status,
  phase_key, apply_phase, apply_kind, apply_event, after_completed, or_text, first_task,
  phase_failed, agent_started, agent_failed, agent_timed_out, agent_waiting, agent_busy, other_kind,
}

abbrev pub status_of : String → Agents → AgentStatus
status_of id a = get_or idle (lookup id a.runtime_status)

-- RUNNING exactly while a phase is running, and else IDLE.
abbrev pub Agrees : Agents → Type 0
Agrees a = (id : String) → status_of id a ≡ (if is_nonempty (phases_of id a) then running else idle)

-- The kinds of the course of a sprint in which nothing fails or waits.
abbrev pub is_plain : Kind → Bool
is_plain phase_started = true
is_plain phase_completed = true
is_plain phase_other = true
is_plain agent_finished = true
is_plain agent_cancelled = true
is_plain _ = false

is_nonempty-insert : (k v : String) (d : Dict String) → is_nonempty (insert k v d) ≡ true
unfolding insert
is_nonempty-insert k v [] = refl
is_nonempty-insert k v ((j, w) ∷ d) = ground arith

module _ (strip lower : String → String) where
  -- A write of a status that agrees with the phases which are stored with it.
  set-Agrees :
      (id : String) (status : AgentStatus) (task : Option String) (phases : Dict (Dict String))
      (a : Agents)
      → normalize_agent_id strip lower id ≡ id
      → ((i : String)
          → (if id == i then status else status_of i a) ≡ (
              if is_nonempty (phases_of i (record a { running_phases = phases }))
              then running
              else idle))
      → Agrees (set_agent_status strip lower id status task (record a { running_phases = phases }))
  unfolding set_agent_status
  set-Agrees id status task phases a n h i =
      ground (arith, n, h i, lookup-insert id i status a.runtime_status)

  module _ (id : String) (e : AgentEvent) (a : Agents) (n : normalize_agent_id strip lower id ≡ id)
      (h : Agrees a) where
    started : Agrees (apply_kind strip lower phase_started id e a)
    unfolding apply_kind apply_phase
    started =
        let name = or_text e.meta_phase (or_text (some e.detail) "Executing phase") in
        let phases = insert (phase_key strip lower e) name (phases_of id a) in
        set-Agrees id running (some name) (insert id phases a.running_phases) a n (λ i. ground (
          arith,
          h i,
          eq_iff id i,
          lookup-insert id i phases a.running_phases,
          is_nonempty-insert (phase_key strip lower e) name (phases_of id a),
        ))

    kept_phases :
        (phases : Dict String)
        → Agrees (
            after_completed strip lower id phases
              (record a { running_phases = insert id phases a.running_phases }))
    unfolding after_completed
    kept_phases phases = elim (Bool-cases (is_nonempty phases)) [
      | inl some_left ↦ rw some_left (
          set-Agrees id running (first_task phases) (insert id phases a.running_phases) a n (λ i.
            ground
              (arith, h i, some_left, eq_iff id i, lookup-insert id i phases a.running_phases)))
      | inr none_left ↦ rw none_left (
          set-Agrees id idle none (insert id phases a.running_phases) a n (λ i.
            ground
              (arith, h i, none_left, eq_iff id i, lookup-insert id i phases a.running_phases)))
    ]

    completed : Agrees (apply_kind strip lower phase_completed id e a)
    unfolding apply_kind apply_phase
    completed = kept_phases (remove (phase_key strip lower e) (phases_of id a))

    finished : Agrees (apply_kind strip lower agent_finished id e a)
    unfolding apply_kind
    finished = elim (Bool-cases (is_nonempty (phases_of id a))) [
      | inl some_left ↦ rw some_left h
      | inr none_left ↦ rw none_left (
          set-Agrees id idle none a.running_phases a n
            (λ i. ground (arith, h i, none_left, eq_iff id i)))
    ]

    called_off : Agrees (apply_kind strip lower agent_cancelled id e a)
    unfolding apply_kind
    called_off =
        set-Agrees id idle none (remove id a.running_phases) a n
          (λ i. ground (arith, h i, eq_iff id i, lookup-remove id i a.running_phases))

    other_phase : Agrees (apply_kind strip lower phase_other id e a)
    unfolding apply_kind apply_phase
    other_phase i =
        ground (arith, h i, eq_iff id i, lookup-insert id i (phases_of id a) a.running_phases)

    plain_kind : (k : Kind) → is_plain k ≡ true → Agrees (apply_kind strip lower k id e a)
    plain_kind phase_started p = started
    plain_kind phase_completed p = completed
    plain_kind phase_other p = other_phase
    plain_kind agent_finished p = finished
    plain_kind agent_cancelled p = called_off
    plain_kind phase_failed p = absurd (cc)
    plain_kind agent_started p = absurd (cc)
    plain_kind agent_failed p = absurd (cc)
    plain_kind agent_timed_out p = absurd (cc)
    plain_kind agent_waiting p = absurd (cc)
    plain_kind agent_busy p = absurd (cc)
    plain_kind other_kind p = absurd (cc)

  unfoldable pub apply_events : List AgentEvent → Agents → Agents
  apply_events [] a = a
  apply_events (e ∷ es) a = apply_events es (apply_event strip lower e a)

  -- All the events are plain, and normalizing the id of each twice is normalizing it once.
  abbrev pub AllPlain : List AgentEvent → Type 0
  AllPlain [] = Unit
  AllPlain (e ∷ es) =
      (is_plain e.kind ≡ true)
      × (normalize_agent_id strip lower (normalize_agent_id strip lower e.source_id)
          ≡ normalize_agent_id strip lower e.source_id)
      × AllPlain es

  pub apply_events-Agrees :
      (es : List AgentEvent) (a : Agents) → AllPlain es → Agrees a → Agrees (apply_events es a)
  unfolding apply_events apply_event
  apply_events-Agrees [] a plain h = h
  apply_events-Agrees (e ∷ es) a (plain, stable, rest) h =
      apply_events-Agrees es (apply_event strip lower e a) rest
        (plain_kind (normalize_agent_id strip lower e.source_id) e a stable h e.kind plain)
