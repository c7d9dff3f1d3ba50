-- ===== src/JobState/Snapshot.antt =====
-- `snapshot` and `restore`: the rollback of the engine.
use hermes_lab.Prelude.{◌≡◌, refl, List, [], ◌∷◌, arith, or_unchanged}
use hermes_lab.JobState.Defs.{JobRecord, transition_to, snapshot, restore}
use hermes_lab.JobState.Traces.{Request, attempt, follow}

-- The attributes that `snapshot` leaves out.
record SameIdentity (j k : JobRecord) : Type 0 where
  job_id : k.job_id ≡ j.job_id
  goal : k.goal ≡ j.goal
  title : k.title ≡ j.title
  repository : k.repository ≡ j.repository
  branch : k.branch ≡ j.branch
  priority : k.priority ≡ j.priority
  created_at : k.created_at ≡ j.created_at

attempt-SameIdentity :
    (r : Request) (j k : JobRecord)
    → SameIdentity j k
    → SameIdentity j (or_unchanged k (attempt r k))
unfolding transition_to
attempt-SameIdentity r j k h = ground arith

restore-SameIdentity : (j k : JobRecord) → SameIdentity j k → restore (snapshot j) k ≡ j
unfolding restore snapshot
restore-SameIdentity j k h = ground arith

follow-SameIdentity :
    (j k : JobRecord) (rs : List Request) → SameIdentity j k → SameIdentity j (follow k rs)
unfolding follow
follow-SameIdentity j k [] h = h
follow-SameIdentity j k (r ∷ rs) h =
    follow-SameIdentity j (or_unchanged k (attempt r k)) rs (attempt-SameIdentity r j k h)

-- Restoring a snapshot undoes every transition made since it was taken, exactly.
pub restore-follow : (j : JobRecord) (rs : List Request) → restore (snapshot j) (follow j rs) ≡ j
restore-follow j rs = restore-SameIdentity j (follow j rs) (
    follow-SameIdentity j j rs (record {
      job_id = refl;
      goal = refl;
      title = refl;
      repository = refl;
      branch = refl;
      priority = refl;
      created_at = refl;
    }))
