-- ===== src/Delivery/Questions.antt =====
-- The questions that a delivery puts on record: the part of `deliverMessage` in delivery.ts on
-- ask_question, `createPendingQuestion` of db/sessions.ts, and the options of channels/ask-question.ts.
use aimclaw.Base.{
  String, str_eq, Bool, true, false, not, ◌&&◌, Option, none, some, List, [], ◌∷◌, ◌++◌, any,
  if◌then◌else◌,
}
use aimclaw.Json.{
  Json, Items, Fields, null, bool, num, str, arr, obj, nil, cons, end, field, property,
}
use aimclaw.Delivery.{MessageOut}

pub record PendingQuestion : Type 0 where
  pub question_id : String
  pub session_id : String
  pub message_out_id : String
  pub platform_id : Option String
  pub channel_type : Option String
  pub thread_id : Option String
  pub title : String
  pub options : Items

-- A property of a value that is not null; `none` for undefined.
abbrev pub get : String → Json → Option Json
get k j = elim (property k j) [ none ↦ none | some v ↦ v ]

-- `v ?? d`
abbrev nullish : Option Json → Option Json → Option Json
nullish none d = d
nullish (some null) d = d
nullish (some v) d = some v

-- Undefined fields are not printed.
abbrev with_field : String → Option Json → Fields → Fields
with_field k none fs = fs
with_field k (some v) fs = field k v fs

abbrev style_of : Option Json → Option Json
style_of (some (str s)) =
    if str_eq s "primary"
    then some (str s)
    else if str_eq s "danger"
    then some (str s)
    else if str_eq s "default"
    then some (str s)
    else none
style_of _ = none

-- An option that is null throws.
normalize_option : Json → Option Json
normalize_option null = none
normalize_option (str s) =
    some (obj (field "label" (str s) (field "selectedLabel" (str s) (field "value" (str s) end))))
normalize_option raw =
    let label = get "label" raw in
    some (
      obj (
        with_field "label" label (
          with_field "selectedLabel" (nullish (get "selectedLabel" raw) label) (
            with_field "value" (nullish (get "value" raw) label)
              (with_field "style" (style_of (get "style" raw)) end)))))

cons_to : Option Json → Option Items → Option Items
cons_to (some x) (some xs) = some (cons x xs)
cons_to _ _ = none

pub normalize_options : Items → Option Items
unfolding normalize_option cons_to property
normalize_options nil = some nil
normalize_options (cons x xs) = cons_to (normalize_option x) (normalize_options xs)

-- A printed number is 0 only as `0`.
abbrev pub truthy : Option Json → Bool
truthy none = false
truthy (some null) = false
truthy (some (bool b)) = b
truthy (some (num n)) = not (str_eq n "0")
truthy (some (str s)) = not (str_eq s "")
truthy (some j) = true

abbrev pub has_text : String → Option Json → Bool
has_text s (some (str t)) = str_eq t s
has_text s _ = false

-- INSERT OR IGNORE, under PRIMARY KEY (question_id)
unfoldable pub create_pending_question :
    PendingQuestion → List PendingQuestion → List PendingQuestion
create_pending_question q qs =
    if any (λ r. str_eq r.question_id q.question_id) qs then qs else qs ++ q ∷ []

module _ (text_of_number : String → String) where
  -- What the driver binds to a text column: it throws on an object, an array or a Boolean.
  abbrev bound : Option Json → Option String
  bound (some (str s)) = some s
  bound (some (num n)) = some (text_of_number n)
  bound _ = none

  abbrev put :
      String
      → MessageOut
      → Option String
      → Option String
      → Option Items
      → List PendingQuestion
      → Option (List PendingQuestion)
  put session msg (some id) (some title) (some options) qs = some (
      create_pending_question
        (record {
          question_id = id;
          session_id = session;
          message_out_id = msg.id;
          platform_id = msg.platform_id;
          channel_type = msg.channel_type;
          thread_id = msg.thread_id;
          title = title;
          options = options;
        })
        qs)
  put session msg _ _ _ qs = none

  -- with a title and a list of options; without them it only logs
  abbrev put_options :
      String
      → MessageOut
      → Json
      → Option Json
      → List PendingQuestion
      → Option (List PendingQuestion)
  put_options session msg content (some (arr options)) qs =
      if truthy (get "title" content)
      then put session msg (bound (get "questionId" content)) (bound (get "title" content))
          (normalize_options options) qs
      else some qs
  put_options session msg content _ qs = some qs

  -- `none` where it throws
  unfoldable pub track_question :
      Bool → String → MessageOut → Json → List PendingQuestion → Option (List PendingQuestion)
  unfolding create_pending_question normalize_options property
  track_question has_table session msg content qs =
      if has_text "ask_question" (get "type" content)
        && (truthy (get "questionId" content) && has_table)
      then put_options session msg content (get "options" content) qs
      else some qs
