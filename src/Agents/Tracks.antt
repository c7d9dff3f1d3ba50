-- ===== src/Agents/Tracks.antt =====
-- personas/agent_state_reducer.py: the phases that run, told from the events alone, and that the
-- reducer's dicts hold their labels.
use Prim.Native.String.{◌++◌}
use hermes_lab.Prelude.{
  Bool-cases, inl, inr, String, ◌≡◌, some, List, [], ◌∷◌, Bool, true, false, arith, ◌==◌, ◌||◌,
  ◌&&◌, not, eq_iff, if◌then◌else◌,
}
use hermes_lab.Dict.{Dict, lookup, insert, remove, has}
use hermes_lab.Dict.Laws.{lookup-insert, lookup-remove}
use hermes_lab.Agents.Defs.{
  Kind, phase_started, phase_completed, phase_other, agent_finished, agent_cancelled, AgentEvent,
  Agents, phases_of, normalize_agent_id, set_agent_status, phase_key, apply_phase, apply_kind,
  apply_event, after_completed, or_text, phase_failed, agent_started, agent_failed, agent_timed_out,
  agent_waiting, agent_busy, other_kind,
}
use hermes_lab.Agents.Phases.{is_plain, AllPlain, apply_events}

-- A phase: its job, and its order or else its name.
abbrev pub Phase : Type 0
Phase = String × String

abbrev pub phase_of : AgentEvent → Phase
phase_of e =
    (or_text e.job_id (or_text e.meta_job ""), or_text e.meta_order (or_text e.meta_phase ""))

abbrev pub label : Phase → String
label p = p.0 ++ ":" ++ p.1

abbrev same : Phase → Phase → Bool
same p q = (p.0 == q.0) && (p.1 == q.1)

-- Whether a phase of the agent runs after an event of the agent, from whether the event names the
-- phase and whether it ran before.
abbrev pub runs_on : Kind → Bool → Bool → Bool
runs_on phase_started named before = named || before
runs_on phase_completed named before = before && not named
runs_on agent_cancelled named before = false
runs_on _ named before = before

same_iff : (p q : Phase) → (same p q ≡ true → p ≡ q) × (p ≡ q → same p q ≡ true)
same_iff (i, j) (k, l) = ground (arith, eq_iff i k, eq_iff j l)

module _ (strip lower : String → String) (read : String → Phase) where
  unfoldable pub runs_after : String → List AgentEvent → (Phase → Bool) → Phase → Bool
  runs_after id [] before p = before p
  runs_after id (e ∷ es) before p =
      runs_after id es
        (λ q.
          if normalize_agent_id strip lower e.source_id == id
          then runs_on e.kind (same (phase_of e) q) (before q)
          else before q)
        p

  -- The label of the phase of every event can be read back.
  abbrev pub AllRead : List AgentEvent → Type 0
  AllRead [] = Unit
  AllRead (e ∷ es) = (read (label (phase_of e)) ≡ phase_of e) × AllRead es

  pub record Tracks (d : Dict String) (o : Phase → Bool) : Type 0 where
    pub kept : (k : String) → has k d ≡ true → (o (read k) ≡ true) × (label (read k) ≡ k)
    pub held : (p : Phase) → o p ≡ true → (has (label p) d ≡ true) × (read (label p) ≡ p)

  started :
      (e : AgentEvent) (v : String) (d : Dict String) (o : Phase → Bool)
      → read (label (phase_of e)) ≡ phase_of e
      → Tracks d o
      → Tracks
          (insert (phase_key strip lower e) v d)
          (λ q. runs_on phase_started (same (phase_of e) q) (o q))
  unfolding phase_key
  started e v d o r h = record {
    kept = λ k there. ground (
      arith,
      lookup-insert (label (phase_of e)) k v d,
      eq_iff (label (phase_of e)) k,
      h.kept k,
      same_iff (phase_of e) (read k),
      r,
    );
    held = λ p on. ground (
      arith,
      lookup-insert (label (phase_of e)) (label p) v d,
      eq_iff (label (phase_of e)) (label p),
      h.held p,
      same_iff (phase_of e) p,
      r,
    );
  }

  completed :
      (e : AgentEvent) (d : Dict String) (o : Phase → Bool)
      → read (label (phase_of e)) ≡ phase_of e
      → Tracks d o
      → Tracks
          (remove (phase_key strip lower e) d)
          (λ q. runs_on phase_completed (same (phase_of e) q) (o q))
  unfolding phase_key
  completed e d o r h = record {
    kept = λ k there. ground (
      arith,
      lookup-remove (label (phase_of e)) k d,
      eq_iff (label (phase_of e)) k,
      h.kept k,
      same_iff (phase_of e) (read k),
      r,
    );
    held = λ p on. ground (
      arith,
      lookup-remove (label (phase_of e)) (label p) d,
      eq_iff (label (phase_of e)) (label p),
      h.held p,
      same_iff (phase_of e) p,
      r,
    );
  }

  -- What an event of the agent does with its dict of phases.
  moved : Kind → AgentEvent → Dict String → Dict String
  unfolding phase_key
  moved phase_started e d =
      insert (phase_key strip lower e)
        (or_text e.meta_phase (or_text (some e.detail) "Executing phase")) d
  moved phase_completed e d = remove (phase_key strip lower e) d
  moved agent_cancelled e d = []
  moved _ e d = d

  phases_of-kind :
      (k : Kind) (id i : String) (e : AgentEvent) (a : Agents)
      → is_plain k ≡ true
      → phases_of i (apply_kind strip lower k id e a)
        ≡ (if id == i then moved k e (phases_of i a) else phases_of i a)
  unfolding apply_kind apply_phase after_completed set_agent_status moved
  phases_of-kind phase_started id i e a plain = ground (
    arith,
    eq_iff id i,
    lookup-insert id i (moved phase_started e (phases_of id a)) a.running_phases,
  )
  phases_of-kind phase_completed id i e a plain = ground (
    arith,
    eq_iff id i,
    lookup-insert id i (moved phase_completed e (phases_of id a)) a.running_phases,
  )
  phases_of-kind phase_other id i e a plain =
      ground (arith, eq_iff id i, lookup-insert id i (phases_of id a) a.running_phases)
  phases_of-kind agent_finished id i e a plain = ground (arith)
  phases_of-kind agent_cancelled id i e a plain =
      ground (arith, eq_iff id i, lookup-remove id i a.running_phases)
  phases_of-kind phase_failed id i e a plain = absurd (cc)
  phases_of-kind agent_started id i e a plain = absurd (cc)
  phases_of-kind agent_failed id i e a plain = absurd (cc)
  phases_of-kind agent_timed_out id i e a plain = absurd (cc)
  phases_of-kind agent_waiting id i e a plain = absurd (cc)
  phases_of-kind agent_busy id i e a plain = absurd (cc)
  phases_of-kind other_kind id i e a plain = absurd (cc)

  moved-Tracks :
      (k : Kind) (e : AgentEvent) (d : Dict String) (o : Phase → Bool)
      → is_plain k ≡ true
      → read (label (phase_of e)) ≡ phase_of e
      → Tracks d o
      → Tracks (moved k e d) (λ q. runs_on k (same (phase_of e) q) (o q))
  unfolding moved lookup
  moved-Tracks phase_started e d o plain r h = started e _ d o r h
  moved-Tracks phase_completed e d o plain r h = completed e d o r h
  moved-Tracks phase_other e d o plain r h = h
  moved-Tracks agent_finished e d o plain r h = h
  moved-Tracks agent_cancelled e d o plain r h = record {
    kept = λ k there. absurd (cc);
    held = λ p on. absurd (cc);
  }
  moved-Tracks phase_failed e d o plain r h = absurd (cc)
  moved-Tracks agent_started e d o plain r h = absurd (cc)
  moved-Tracks agent_failed e d o plain r h = absurd (cc)
  moved-Tracks agent_timed_out e d o plain r h = absurd (cc)
  moved-Tracks agent_waiting e d o plain r h = absurd (cc)
  moved-Tracks agent_busy e d o plain r h = absurd (cc)
  moved-Tracks other_kind e d o plain r h = absurd (cc)

  apply_event-Tracks :
      (id : String) (e : AgentEvent) (a : Agents) (o : Phase → Bool)
      → is_plain e.kind ≡ true
      → read (label (phase_of e)) ≡ phase_of e
      → Tracks (phases_of id a) o
      → Tracks (phases_of id (apply_event strip lower e a)) (λ q.
        if normalize_agent_id strip lower e.source_id == id
        then runs_on e.kind (same (phase_of e) q) (o q)
        else o q)
  unfolding apply_event
  apply_event-Tracks id e a o plain r h =
      let agent = normalize_agent_id strip lower e.source_id in
      rw (phases_of-kind e.kind agent id e a plain) (elim (Bool-cases (agent == id)) [
        | inl own ↦ rw own (moved-Tracks e.kind e (phases_of id a) o plain r h)
        | inr foreign ↦ rw foreign h
      ])

  pub apply_events-Tracks :
      (id : String) (es : List AgentEvent) (a : Agents) (o : Phase → Bool)
      → AllPlain strip lower es
      → AllRead es
      → Tracks (phases_of id a) o
      → Tracks (phases_of id (apply_events strip lower es a)) (runs_after id es o)
  unfolding apply_events runs_after
  apply_events-Tracks id [] a o plain r h = h
  apply_events-Tracks id (e ∷ es) a o (p, n, plain) (r, reads) h =
      apply_events-Tracks id es (apply_event strip lower e a) _ plain reads
        (apply_event-Tracks id e a o p r h)
