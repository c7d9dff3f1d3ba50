-- ===== src/JobState/Traces.antt =====
-- What holds of every sequence of transitions of a job.
use hermes_lab.Prelude.{
  ℕ, ◌≡◌, ◌≢◌, refl, Option, none, Bool, true, false, arith, List, [], ◌∷◌, inl, inr, ◌⊎◌, Result,
  or_unchanged, is_some, any,
}
use hermes_lab.Dict.{Dict}
use hermes_lab.Task.{Value}
use hermes_lab.JobState.Defs.{
  State, created, planning, executing, verifying, completed, state_eq, is_terminal_state, JobRecord,
  is_terminal, transition_to,
}

-- A transition that the runtime asks for, and the time at which it does.
pub record Request : Type 0 where
  pub now : ℕ
  pub target : State
  pub reason : Option Value
  pub metadata : Dict Value

abbrev pub attempt : Request → JobRecord → Result JobRecord
attempt r j = transition_to r.now r.target r.reason r.metadata j

-- A refused transition raises and leaves the job as it was.
unfoldable pub follow : JobRecord → List Request → JobRecord
follow j [] = j
follow j (r ∷ rs) = follow (or_unchanged j (attempt r j)) rs

-- What the stamps and the state of a job say of each other.
pub record IsStamped (j : JobRecord) : Type 0 where
  pub ended : is_some j.completed_at ≡ is_terminal_state j.state
  pub begun : j.state ≢ created → is_terminal_state j.state ≡ false → is_some j.started_at ≡ true

attempt-IsStamped :
    (r : Request) (j : JobRecord) → IsStamped j → IsStamped (or_unchanged j (attempt r j))
unfolding transition_to
attempt-IsStamped r j h = ground arith

-- From any job whose stamps agree with its state, whatever transitions are asked for: the job has
-- a completion time exactly when its state is terminal, and a start time once it is at work.
pub follow-IsStamped : (j : JobRecord) (rs : List Request) → IsStamped j → IsStamped (follow j rs)
unfolding follow
follow-IsStamped j [] h = h
follow-IsStamped j (r ∷ rs) h =
    follow-IsStamped (or_unchanged j (attempt r j)) rs (attempt-IsStamped r j h)

attempt_terminal :
    (r : Request) (j : JobRecord) → is_terminal j ≡ true → or_unchanged j (attempt r j) ≡ j
unfolding transition_to is_terminal
attempt_terminal r j h = ground arith

-- A completed, blocked, failed or cancelled job never changes again, whatever is asked for.
pub follow_terminal : (j : JobRecord) (rs : List Request) → is_terminal j ≡ true → follow j rs ≡ j
unfolding follow
follow_terminal j [] h = refl
follow_terminal j (r ∷ rs) h = rw (attempt_terminal r j h) (follow_terminal j rs h)

abbrev pub asks : State → List Request → Bool
asks s = any (λ r. state_eq r.target s)

-- Neither VERIFYING nor COMPLETED.
abbrev pub before_verdict : State → Bool
before_verdict verifying = false
before_verdict completed = false
before_verdict _ = true

attempt_before_verdict :
    (r : Request) (j : JobRecord)
    → before_verdict j.state ≡ true
    → (state_eq r.target verifying ≡ true)
      ⊎ (before_verdict (or_unchanged j (attempt r j)).state ≡ true)
unfolding transition_to
attempt_before_verdict r j h = ground arith

-- A job that is neither in verification nor completed is completed, by whatever sequence of
-- requested transitions, only if verification was asked for.
pub completed_needs_verifying :
    (j : JobRecord) (rs : List Request)
    → before_verdict j.state ≡ true
    → (follow j rs).state ≡ completed
    → asks verifying rs ≡ true
unfolding follow any
completed_needs_verifying j [] h e = ground arith
completed_needs_verifying j (r ∷ rs) h e = elim (attempt_before_verdict r j h) [
  | inl asked ↦ ground arith
  | inr still ↦
      let rest = completed_needs_verifying (or_unchanged j (attempt r j)) rs still e in ground arith
]

abbrev ask : State → Request
ask s = record { now = 0; target = s; reason = none; metadata = [] }

-- Transitions that lead from each state that is not terminal to COMPLETED.
unfoldable pub route : State → List Request
route created = ask planning ∷ ask executing ∷ ask verifying ∷ ask completed ∷ []
route planning = ask executing ∷ ask verifying ∷ ask completed ∷ []
route executing = ask verifying ∷ ask completed ∷ []
route verifying = ask completed ∷ []
route _ = ask executing ∷ ask verifying ∷ ask completed ∷ []

-- No state is a trap: from every state that is not terminal, legal transitions lead to COMPLETED.
pub route_completes :
    (j : JobRecord) → is_terminal j ≡ false → (follow j (route j.state)).state ≡ completed
unfolding follow route transition_to is_terminal
route_completes j h = ground arith
