-- ===== src/EventBus/Defs.antt =====
-- events/event_bus.py: `RuntimeEventBus`. What formats the clock and changes the case of a text is an
-- argument. `P` is what the metadata of an event holds.
use hermes_lab.Prelude.{
  ℕ, suc, ◌+◌, String, Option, none, some, List, [], ◌∷◌, ◌++◌, Bool, ◌&&◌, ltb, leb, eqb,
  if◌then◌else◌, ◌==◌, length,
}
use hermes_lab.Dict.{Dict, insert, remove, modify}

pub record ActorRef : Type 0 where
  pub ref_id : String
  pub ref_kind : String
  pub display_name : String
  pub accent_color : Option String

pub record RuntimeEvent (P : Type 0) : Type 0 where
  pub id : String
  pub ts : String
  pub raw_ts : ℕ
  pub source : ActorRef
  pub kind : String
  pub detail : String
  pub dur : String
  pub job_id : Option String
  pub task_id : Option String
  pub run_id : Option String
  pub actor_id : Option String
  pub metadata : P

-- The queue of a subscriber, with the offers that its loop has been asked to make.
pub record Subscriber (P : Type 0) : Type 0 where
  pub is_closed : Bool
  pub maxsize : ℕ
  pub called : List (RuntimeEvent P)
  pub queue : List (RuntimeEvent P)

pub record Bus (P : Type 0) : Type 0 where
  pub max_history : ℕ
  pub history : List (RuntimeEvent P)
  pub subscribers : Dict (Subscriber P)
  pub event_counter : ℕ

-- The arguments of `publish`, with the clock's time and its text.
pub record Publication (P : Type 0) : Type 0 where
  pub source_id : String
  pub source_kind : String
  pub source_name : Option String
  pub event_kind : String
  pub event_detail : String
  pub duration : String
  pub color : Option String
  pub of_job : Option String
  pub of_task : Option String
  pub of_run : Option String
  pub of_actor : Option String
  pub payload : P
  pub now : ℕ
  pub now_text : String

-- The last `n` of a list: what a deque of that length keeps, and `events[-n:]` of a longer list.
unfoldable pub keep_last {ℓ} : {A : Type ℓ} → ℕ → List A → List A
keep_last n [] = []
keep_last n (x ∷ xs) =
    let later = keep_last n xs in if ltb n (suc (length xs)) then later else x ∷ xs

-- `deque.append`
unfoldable pub push {ℓ} : {A : Type ℓ} → ℕ → List A → A → List A
unfolding keep_last
push n xs x = keep_last n (xs ++ x ∷ [])

abbrev name_or : Option String → String → String
name_or none other = other
name_or (some s) other = if s == "" then other else s

-- `call_soon_threadsafe(_offer, queue, event)` on a loop that is open
abbrev call : {P : Type 0} → RuntimeEvent P → Subscriber P → Subscriber P
call e s = if s.is_closed then s else record s { called = s.called ++ e ∷ [] }

abbrev call_all : {P : Type 0} → RuntimeEvent P → Dict (Subscriber P) → Dict (Subscriber P)
call_all e [] = []
call_all e ((q, s) ∷ d) = (q, call e s) ∷ call_all e d

module _ {P : Type 0} (format_id : ℕ → ℕ → String) (lower capitalize : String → String) where
  abbrev pub new_event : ℕ → Publication P → RuntimeEvent P
  new_event counter p = record {
    id = format_id p.now counter;
    ts = p.now_text;
    raw_ts = p.now;
    source = record {
      ref_id = lower p.source_id;
      ref_kind = p.source_kind;
      display_name = name_or p.source_name (capitalize p.source_id);
      accent_color = p.color;
    };
    kind = p.event_kind;
    detail = p.event_detail;
    dur = p.duration;
    job_id = p.of_job;
    task_id = p.of_task;
    run_id = p.of_run;
    actor_id = p.of_actor;
    metadata = p.payload;
  }

  -- `next_id` and `publish`, as one step: two threads that publish may in the code count in one order
  -- and append in the other.
  unfoldable pub publish : Publication P → Bus P → Bus P
  unfolding push
  publish p b =
      let counter = b.event_counter + 1 in
      let event = new_event counter p in
      record b {
        event_counter = counter;
        history = push b.max_history b.history event;
        subscribers = call_all event b.subscribers;
      }

module _ {P : Type 0} where
  -- The events after the first one with the id: `none` where there is none.
  unfoldable pub after_event : String → List (RuntimeEvent P) → Option (List (RuntimeEvent P))
  after_event id [] = none
  after_event id (e ∷ es) = let later = after_event id es in if e.id == id then some es else later

  abbrev pub get_or_all :
      List (RuntimeEvent P) → Option (List (RuntimeEvent P)) → List (RuntimeEvent P)
  get_or_all all none = all
  get_or_all all (some es) = es

  unfoldable pub from_id : Option String → List (RuntimeEvent P) → List (RuntimeEvent P)
  unfolding after_event
  from_id none es = es
  from_id (some id) es = if id == "" then es else get_or_all es (after_event id es)

  unfoldable pub recent : ℕ → Option String → Bus P → List (RuntimeEvent P)
  unfolding keep_last from_id
  recent limit after_id b =
      let events = from_id after_id b.history in
      if eqb limit 0 then events else keep_last limit events

  -- A queue is known by its name.
  unfoldable pub subscribe : String → Subscriber P → Bus P → Bus P
  subscribe q s b = record b { subscribers = insert q s b.subscribers }

  unfoldable pub unsubscribe : String → Bus P → Bus P
  unsubscribe q b = record b { subscribers = remove q b.subscribers }

  -- `_offer`: a full queue drops the event. A maximal size of 0 is none.
  unfoldable pub offer : RuntimeEvent P → Subscriber P → Subscriber P
  offer e s =
      if ltb 0 s.maxsize && leb s.maxsize (length s.queue)
      then s
      else record s { queue = s.queue ++ e ∷ [] }

  abbrev pub deliver_next : List (RuntimeEvent P) → Subscriber P → Subscriber P
  unfolding offer
  deliver_next [] s = s
  deliver_next (e ∷ es) s = offer e (record s { called = es })

  -- The loop of a subscriber makes the next offer.
  unfoldable pub deliver : String → Bus P → Bus P
  deliver q b = record b { subscribers = modify q (λ s. deliver_next s.called s) b.subscribers }
