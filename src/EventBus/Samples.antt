-- ===== src/EventBus/Samples.antt =====
-- The theorems on the bus applied to a bus that remembers two events.
use hermes_lab.Prelude.{eq_iff, ℕ, String, ◌≢◌, none, some, List, [], ◌∷◌, leb, if◌then◌else◌}
use hermes_lab.EventBus.Defs.{RuntimeEvent, Bus, Publication, new_event}

abbrev publication : String → Publication ℕ
publication kind = record {
  source_id = "Claude";
  source_kind = "agent";
  source_name = none;
  event_kind = kind;
  event_detail = "";
  duration = "-";
  color = none;
  of_job = some "job";
  of_task = none;
  of_run = none;
  of_actor = none;
  payload = 0;
  now = 1000;
  now_text = "10:00:00.000";
}

-- An id that only tells the first event from the later ones.
abbrev id_text : ℕ → ℕ → String
id_text now n = if leb n 1 then "evt_1" else "evt_n"

abbrev same_text : String → String
same_text s = s

abbrev bus : Bus ℕ
bus = record { max_history = 2; history = []; subscribers = []; event_counter = 0 }

abbrev publications : List (Publication ℕ)
publications = publication "job.created" ∷ publication "job.started" ∷ publication "job.failed" ∷ []

abbrev first : RuntimeEvent ℕ
first = new_event id_text same_text same_text 1 (publication "job.created")

abbrev second : RuntimeEvent ℕ
second = new_event id_text same_text same_text 2 (publication "job.started")

abbrev two_events : Bus ℕ
two_events = record {
  max_history = 2;
  history = first ∷ second ∷ [];
  subscribers = [];
  event_counter = 2;
}

named : first.id ≢ ""
named e = cc ((eq_iff first.id "").1 e)
