-- ===== src/Runner/Inbox/Claims.antt =====
-- The life of a claim: from the poll that picks a message up to the sync of the host.
use mathlib.Core.List
use mathlib.Core.List.{Memᴰ, append-nil}
use aimclaw.Base.{
  ℕ, String, str_eq, str_eq_iff, ◌≡◌, refl, sym, ap, ◌∙◌, Bool, true, false, not, ◌&&◌, List, [],
  ◌∷◌, All, All-weaken, any, map, filter, arith, Bool-cases, inl, inr,
}
use aimclaw.SessionDb.{MessageIn, ProcessingAck, AckStatus, Stamp, is_processing}
use aimclaw.Runner.Inbox.{
  is_acked, replace_ack, ack_with, ack_all, mark_processing, clear_stale_processing_acks,
  get_pending_messages, take, newest_first, is_up,
}
use aimclaw.Runner.Inbox.Pickup.{All-reverse, filter-append}
use aimclaw.Runner.Inbox.Calls.{is_acked-ack_all, AckCall, after_calls, calls_still}

-- A claim that the restart clears
is_acked-cleared :
    (id other : String) (acks : List ProcessingAck)
    → is_acked (clear_stale_processing_acks (filter (λ b. not (str_eq b.message_id id)) acks)) other
      ≡ (not (str_eq id other) && is_acked (clear_stale_processing_acks acks) other)
unfolding clear_stale_processing_acks
is_acked-cleared id other [] = ground arith
is_acked-cleared id other (a ∷ acks) = ground (
  arith,
  is_acked-cleared id other acks,
  str_eq_iff a.message_id id,
  str_eq_iff a.message_id other,
  str_eq_iff id other,
)

module _ (clock : String → Stamp) where
  cleared-ack_with :
      (id other : String) (acks : List ProcessingAck)
      → is_acked (clear_stale_processing_acks (ack_with clock AckStatus.processing id acks)) other
        ≡ (not (str_eq id other) && is_acked (clear_stale_processing_acks acks) other)
  unfolding ack_with replace_ack clear_stale_processing_acks
  cleared-ack_with id other acks =
      ap (λ xs. is_acked xs other)
        (filter-append (λ a. not (is_processing a))
          (filter (λ b. not (str_eq b.message_id id)) acks)
          (record { message_id = id; status = AckStatus.processing; status_changed = clock id }
            ∷ []))
      ∙ (ap (λ xs. is_acked xs other)
            (append-nil
              (clear_stale_processing_acks (filter (λ b. not (str_eq b.message_id id)) acks)))
          ∙ is_acked-cleared id other acks)

  cleared-mark_processing :
      (ids : List String) (other : String) (acks : List ProcessingAck)
      → is_acked (clear_stale_processing_acks (ack_all clock AckStatus.processing ids acks)) other
        ≡ (not (any (λ id. str_eq id other) ids)
            && is_acked (clear_stale_processing_acks acks) other)
  unfolding ack_all
  cleared-mark_processing [] other acks = refl
  cleared-mark_processing (id ∷ ids) other acks =
      cleared-mark_processing ids other (ack_with clock AckStatus.processing id acks)
      ∙ ground (arith, cleared-ack_with id other acks)

filter-agree :
    (p q : MessageIn → Bool) (xs : List MessageIn)
    → ((m : MessageIn) → p m ≡ q m)
    → filter p xs ≡ filter q xs
filter-agree p q [] h = refl
filter-agree p q (m ∷ ms) h = rw (h m, filter-agree p q ms h) refl

filter-holds : (p : MessageIn → Bool) (xs : List MessageIn) → All (λ m. p m ≡ true) (filter p xs)
filter-holds p [] = tt
filter-holds p (m ∷ ms) = elim (Bool-cases (p m)) [
  | inl e ↦ rw (e, e) (refl, filter-holds p ms)
  | inr e ↦ rw e (filter-holds p ms)
]

abbrev pub ids_of : List MessageIn → List String
ids_of ms = map (λ m. m.id) ms

unclaimed :
    (acks : List ProcessingAck) (ms : List MessageIn) (other : String)
    → All (λ (m : MessageIn). is_acked acks m.id ≡ false) ms
    → any (λ id. str_eq id other) (ids_of ms) ≡ true
    → is_acked acks other ≡ false
unclaimed acks [] other h e = cc
unclaimed acks (m ∷ ms) other (p, h) e = elim (Bool-cases (str_eq m.id other)) [
  | inl d ↦ ap (is_acked acks) (sym ((str_eq_iff m.id other).0 d)) ∙ p
  | inr d ↦ unclaimed acks ms other h (ground arith)
]

module _ (now : ℕ) (has_on_wake first : Bool) (cap : ℕ) (rows : List MessageIn) where
  picked_up : List ProcessingAck → List MessageIn
  picked_up acks = get_pending_messages now has_on_wake first cap rows acks

  picked_up-unclaimed :
      (acks : List ProcessingAck)
      → All (λ (m : MessageIn). is_acked acks m.id ≡ false) (picked_up acks)
  unfolding get_pending_messages picked_up
  picked_up-unclaimed acks =
      let free = λ (m : MessageIn). not (is_acked acks m.id) in
      let due = take cap (newest_first (filter (is_up now has_on_wake first) rows)) in
      All-reverse (λ (m : MessageIn). is_acked acks m.id ≡ false) (filter free due)
        (All-weaken (λ (m : MessageIn). free m ≡ true)
          (λ (m : MessageIn). is_acked acks m.id ≡ false) (filter free due) (λ m h. ground arith)
          (filter-holds free due))

  picked_up-agree :
      (acks acks' : List ProcessingAck)
      → ((id : String) → is_acked acks id ≡ is_acked acks' id)
      → picked_up acks ≡ picked_up acks'
  unfolding get_pending_messages picked_up
  picked_up-agree acks acks' h = ap List.reverse (
      filter-agree (λ m. not (is_acked acks m.id)) (λ m. not (is_acked acks' m.id))
        (take cap (newest_first (filter (is_up now has_on_wake first) rows)))
        (λ m. ap not (h m.id)))

  module _ (clock : String → Stamp) (acks : List ProcessingAck) where
    restarted : String → Bool
    restarted other =
        is_acked
          (clear_stale_processing_acks (mark_processing clock (ids_of (picked_up acks)) acks)) other

    restarted-eq :
        (other : String)
        → clear_stale_processing_acks acks ≡ acks
        → restarted other ≡ is_acked acks other
    unfolding restarted mark_processing
    restarted-eq other clean =
        cleared-mark_processing clock (ids_of (picked_up acks)) other acks
        ∙ (ap
              (λ xs.
                not (any (λ id. str_eq id other) (ids_of (picked_up acks))) && is_acked xs other)
              clean
            ∙ ground (arith, unclaimed acks (picked_up acks) other (picked_up-unclaimed acks)))

clear_stale_idempotent :
    (acks : List ProcessingAck)
    → clear_stale_processing_acks (clear_stale_processing_acks acks)
      ≡ clear_stale_processing_acks acks
unfolding clear_stale_processing_acks
clear_stale_idempotent [] = refl
clear_stale_idempotent (a ∷ acks) = ground (arith, clear_stale_idempotent acks)

-- What is claimed is given by no later poll of the same container, whatever it claims, completes, fails or skips in
-- between, and whenever and over whatever rows it polls; but when a container that has claimed all it was given
-- crashes, the next one, which clears the claims, is given the same messages.
pub claims_hide_until_restart :
    (now : ℕ) (has_on_wake first : Bool) (cap : ℕ) (rows : List MessageIn) (clock : String → Stamp)
    (acks : List ProcessingAck) (ids : List String) (calls : List AckCall) (now' : ℕ)
    (first' : Bool) (rows' : List MessageIn)
    → All
        (λ (m : MessageIn). any (λ id. str_eq id m.id) ids ≡ false)
        (get_pending_messages now' has_on_wake first' cap rows'
          (after_calls calls (mark_processing clock ids acks)))
      × (get_pending_messages now has_on_wake first cap rows (
            clear_stale_processing_acks (
              mark_processing clock
                (ids_of (
                  get_pending_messages now has_on_wake first cap rows
                    (clear_stale_processing_acks acks)))
                (clear_stale_processing_acks acks)))
          ≡ get_pending_messages now has_on_wake first cap rows (clear_stale_processing_acks acks))
unfolding mark_processing picked_up restarted
claims_hide_until_restart now has_on_wake first cap rows clock acks ids calls now' first' rows' =
    let poll = picked_up now has_on_wake first cap rows in
    let start = clear_stale_processing_acks acks in
    let later = after_calls calls (mark_processing clock ids acks) in
    (
      All-weaken (λ (m : MessageIn). is_acked later m.id ≡ false)
          (λ (m : MessageIn). any (λ id. str_eq id m.id) ids ≡ false)
          (get_pending_messages now' has_on_wake first' cap rows' later)
          (λ m h. elim (Bool-cases (any (λ id. str_eq id m.id) ids)) [
            | inr e ↦ e
            | inl e ↦
                let claimed : is_acked (mark_processing clock ids acks) m.id ≡ true =
                  is_acked-ack_all clock AckStatus.processing ids m.id acks ∙ ground arith in
                cc (calls_still calls m.id (mark_processing clock ids acks) claimed, h)
          ])
          (picked_up-unclaimed now' has_on_wake first' cap rows' later),
      picked_up-agree now has_on_wake first cap rows
          (clear_stale_processing_acks (mark_processing clock (ids_of (poll start)) start)) start
          (λ other.
            restarted-eq now has_on_wake first cap rows clock start other
              (clear_stale_idempotent acks)),
    )
