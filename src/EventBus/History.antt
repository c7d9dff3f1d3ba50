-- ===== src/EventBus/History.antt =====
-- What the bus remembers, and what a reader that comes back gets.
use hermes_lab.Prelude.{
  ℕ, ◌+◌, ◌≤◌, ◌<◌, String, ◌≡◌, ◌≢◌, refl, sym, ap, ◌∙◌, some, List, [], ◌∷◌, ◌++◌, Bool, false,
  arith, ◌==◌, eq_iff, eq_refl, length, any, length-append,
}
use mathlib.Core.List
use hermes_lab.EventBus.Defs.{
  RuntimeEvent, Bus, Publication, keep_last, push, publish, new_event, after_event, from_id, recent,
}

keep_last-keep_last {ℓ} :
    {A : Type ℓ} (n : ℕ) (xs ys : List A)
    → keep_last n (keep_last n xs ++ ys) ≡ keep_last n (xs ++ ys)
unfolding keep_last
keep_last-keep_last n [] ys = refl
keep_last-keep_last n (x ∷ xs) ys = ground (arith, keep_last-keep_last n xs ys, length-append xs ys)

length-keep_last {ℓ} : {A : Type ℓ} (n : ℕ) (xs : List A) → length (keep_last n xs) ≤ n
unfolding keep_last
length-keep_last n [] = omega arith
length-keep_last n (x ∷ xs) = ground (arith, length-keep_last n xs)

module _ {P : Type 0} (format_id : ℕ → ℕ → String) (lower capitalize : String → String) where
  unfoldable pub publish_all : List (Publication P) → Bus P → Bus P
  publish_all [] b = b
  publish_all (p ∷ ps) b = publish_all ps (publish format_id lower capitalize p b)

  -- The events of publications, numbered from the counter on.
  abbrev pub events_of : ℕ → List (Publication P) → List (RuntimeEvent P)
  events_of n [] = []
  events_of n (p ∷ ps) = new_event format_id lower capitalize (n + 1) p ∷ events_of (n + 1) ps

  -- On a bus whose history is within `max_history`, after any publications the history is the last
  -- `max_history` of all the events there were, in the order of their publication, and the counter
  -- has counted each.
  pub publish_all-history :
      (ps : List (Publication P)) (b : Bus P)
      → b.history ≡ keep_last b.max_history b.history
      → let after = publish_all ps b in
        (after.history ≡ keep_last b.max_history (b.history ++ events_of b.event_counter ps))
        × (length after.history ≤ b.max_history)
        × (after.event_counter ≡ b.event_counter + length ps)
  unfolding publish_all publish push
  publish_all-history [] b h = (
    rw (List.append-nil b.history) h,
    rw h (length-keep_last b.max_history b.history),
    omega arith,
  )
  publish_all-history (p ∷ ps) b h =
      let (kept, bounded, counted) = publish_all-history ps next next_kept in
      (
        kept
            ∙ keep_last-keep_last b.max_history (b.history ++ event ∷ []) rest
            ∙ ap (keep_last b.max_history) (List.append_assoc b.history (event ∷ []) rest),
        bounded,
        omega (arith, counted),
      )
    where
      next : Bus P
      next = publish format_id lower capitalize p b

      event : RuntimeEvent P
      event = new_event format_id lower capitalize (b.event_counter + 1) p

      rest : List (RuntimeEvent P)
      rest = events_of (b.event_counter + 1) ps

      next_kept : next.history ≡ keep_last next.max_history next.history
      next_kept = sym (
          ap (keep_last b.max_history)
            (sym (List.append-nil (keep_last b.max_history (b.history ++ event ∷ []))))
          ∙ keep_last-keep_last b.max_history (b.history ++ event ∷ []) []
          ∙ ap (keep_last b.max_history) (List.append-nil (b.history ++ event ∷ [])))

module _ {P : Type 0} where
  -- The ids of the events, of which an event's successors are asked for.
  abbrev has_id : String → List (RuntimeEvent P) → Bool
  has_id id = any (λ e. e.id == id)

  after_event-append :
      (xs ys : List (RuntimeEvent P)) (e : RuntimeEvent P)
      → has_id e.id xs ≡ false
      → after_event e.id (xs ++ e ∷ ys) ≡ some ys
  unfolding after_event any
  after_event-append [] ys e h = rw (eq_refl e.id) refl
  after_event-append (x ∷ xs) ys e h = ground (arith, h, after_event-append xs ys e)

  -- Where the history holds the event that a reader saw last, the reader gets exactly the events
  -- after it: all of them, or the last `limit` where there are more.
  pub recent_after :
      (limit : ℕ) (b : Bus P) (xs ys : List (RuntimeEvent P)) (e : RuntimeEvent P)
      → b.history ≡ xs ++ e ∷ ys
      → has_id e.id xs ≡ false
      → e.id ≢ ""
      → 0 < limit
      → recent limit (some e.id) b ≡ keep_last limit ys
  unfolding recent from_id
  recent_after limit b xs ys e h fresh named pos = ground (
    arith,
    eq_iff e.id "",
    ap (after_event e.id) h ∙ after_event-append xs ys e fresh,
    named,
    pos,
  )
