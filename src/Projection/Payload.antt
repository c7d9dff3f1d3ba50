-- ===== src/Projection/Payload.antt =====
-- runtime/storage/projector.py: how the projector reads the payload of an event. A field that the
-- code takes for a text, a number or a list is read as one: any other value counts as absent, and
-- so does an empty text, as in Python's `a or b`.
use hermes_lab.Prelude.{
  ℕ, zero, suc, ◌≡◌, refl, String, Option, none, some, List, [], ◌∷◌, Bool, true, false, not, ◌==◌,
  if◌then◌else◌, arith,
}
use hermes_lab.Dict.{Dict, lookup}
use hermes_lab.Task.{
  Value, null, flag, number, text, items, object, Items, nil, cons, Fields, end, field,
}
use hermes_lab.EventStore.{StoredEvent}

abbrev pub Payload : Type 0
Payload = Dict Value

abbrev pub Event : Type 0
Event = StoredEvent Payload

-- What the projector uses of Python: the time that an ISO text stands for, the
-- text of a time, `str`, `s[:n]` and
-- `s.lower()`.
pub record Python : Type 0 where
  pub stamp : String → ℕ
  pub iso : ℕ → String
  pub show : Value → String
  pub prefix : ℕ → String → String
  pub lower : String → String

-- bool(v)
unfoldable pub truth : Value → Bool
truth null = false
truth (flag b) = b
truth (number zero) = false
truth (number (suc n)) = true
truth (text s) = not (s == "")
truth (items nil) = false
truth (items (cons v vs)) = true
truth (object end) = false
truth (object (field k v vs)) = true

unfoldable pub of_fields : Fields → Payload
of_fields end = []
of_fields (field k v fs) = (k, v) ∷ of_fields fs

unfoldable pub to_fields : Payload → Fields
to_fields [] = end
to_fields ((k, v) ∷ d) = field k v (to_fields d)

pub of_fields-to_fields : (d : Payload) → of_fields (to_fields d) ≡ d
unfolding of_fields to_fields
of_fields-to_fields [] = refl
of_fields-to_fields ((k, v) ∷ d) = ground (arith, of_fields-to_fields d)

unfoldable pub of_items : Items → List Value
of_items nil = []
of_items (cons v vs) = v ∷ of_items vs

unfoldable pub to_items : List Value → Items
to_items [] = nil
to_items (v ∷ vs) = cons v (to_items vs)

pub of_items-to_items : (vs : List Value) → of_items (to_items vs) ≡ vs
unfolding of_items to_items
of_items-to_items [] = refl
of_items-to_items (v ∷ vs) = ground (arith, of_items-to_items vs)

-- `a or b`
abbrev pub or_else {ℓ} : {A : Type ℓ} → Option A → Option A → Option A
or_else none b = b
or_else (some a) b = some a

abbrev pub or_default {ℓ} : {A : Type ℓ} → Option A → A → A
or_default none b = b
or_default (some a) b = a

-- payload.get(key), where None is no value
abbrev pub drop_null : Option Value → Option Value
drop_null (some null) = none
drop_null v = v

unfoldable pub get : String → Payload → Option Value
get k p = drop_null (lookup k p)

-- The value where it counts as true.
abbrev pub when_true : Option Value → Option Value
when_true none = none
when_true (some v) = if truth v then some v else none

abbrev pub get_true : String → Payload → Option Value
unfolding get truth
get_true k p = when_true (get k p)

abbrev pub as_text : Option Value → Option String
as_text (some (text s)) = if s == "" then none else some s
as_text v = none

-- The text under a key, where it is not empty.
unfoldable pub get_text : String → Payload → Option String
unfolding get
get_text k p = as_text (get k p)

abbrev pub as_number : Option Value → Option ℕ
as_number (some (number n)) = some n
as_number v = none

unfoldable pub get_number : String → Payload → Option ℕ
unfolding get
get_number k p = as_number (get k p)

abbrev pub as_items : Option Value → List Value
unfolding of_items
as_items (some (items vs)) = of_items vs
as_items v = []

-- `payload.get(key) or []`
unfoldable pub get_items : String → Payload → List Value
unfolding get
get_items k p = as_items (get k p)

abbrev pub as_fields : Option Value → Payload
unfolding of_fields
as_fields (some (object fs)) = of_fields fs
as_fields v = []

-- `dict(payload.get(key) or {})`
unfoldable pub get_fields : String → Payload → Payload
unfolding get
get_fields k p = as_fields (get k p)

unfoldable pub texts_of : List Value → List String
texts_of [] = []
texts_of (text s ∷ vs) = s ∷ texts_of vs
texts_of (v ∷ vs) = texts_of vs

-- The texts of a list, as a value, and back.
unfoldable pub of_texts : List String → List Value
of_texts [] = []
of_texts (s ∷ ss) = text s ∷ of_texts ss

pub texts_of-of_texts : (ss : List String) → texts_of (of_texts ss) ≡ ss
unfolding texts_of of_texts
texts_of-of_texts [] = refl
texts_of-of_texts (s ∷ ss) = ground (arith, texts_of-of_texts ss)
