-- ===== src/Runner/Inbox/Calls.antt =====
-- The calls of the container on its acknowledgements: what is acknowledged stays so.
use aimclaw.Base.{
  String, str_eq, str_eq_iff, ◌≡◌, refl, ◌∙◌, Bool, true, false, not, ◌||◌, List, [], ◌∷◌, ◌++◌,
  any, filter, arith,
}
use aimclaw.SessionDb.{ProcessingAck, AckStatus, Stamp}
use aimclaw.Runner.Inbox.{
  is_acked, replace_ack, ack_with, ack_all, mark_processing, mark_completed, mark_failed, Skip,
  status_of_skip, mark_script_skipped,
}

any-append : {A : Type 0} (p : A → Bool) (xs ys : List A) → any p (xs ++ ys) ≡ any p xs || any p ys
any-append p [] ys = refl
any-append p (x ∷ xs) ys = ground (arith, any-append p xs ys)

-- Only the row of the id is replaced.
pub any-without :
    (id other : String) (acks : List ProcessingAck)
    → str_eq id other ≡ false
    → is_acked (filter (λ b. not (str_eq b.message_id id)) acks) other ≡ is_acked acks other
any-without id other [] e = refl
any-without id other (a ∷ acks) e = ground (
  arith,
  any-without id other acks e,
  str_eq_iff a.message_id id,
  str_eq_iff a.message_id other,
  str_eq_iff id other,
)

module _ (clock : String → Stamp) (status : AckStatus) where
  pub is_acked-ack_with :
      (id other : String) (acks : List ProcessingAck)
      → is_acked (ack_with clock status id acks) other ≡ (str_eq id other || is_acked acks other)
  unfolding ack_with replace_ack
  is_acked-ack_with id other acks =
      any-append (λ a. str_eq a.message_id other) (filter (λ b. not (str_eq b.message_id id)) acks)
        (record { message_id = id; status = status; status_changed = clock id } ∷ [])
      ∙ ground (arith, any-without id other acks)

  pub is_acked-ack_all :
      (ids : List String) (other : String) (acks : List ProcessingAck)
      → is_acked (ack_all clock status ids acks) other
        ≡ (any (λ id. str_eq id other) ids || is_acked acks other)
  unfolding ack_all
  is_acked-ack_all [] other acks = refl
  is_acked-ack_all (id ∷ ids) other acks =
      is_acked-ack_all ids other (ack_with clock status id acks)
      ∙ ground (arith, is_acked-ack_with id other acks)

-- A call of the container on its acknowledgements, between two polls
pub data AckCall : Type 0 where
  claim complete : (clock : String → Stamp) (ids : List String) → AckCall
  fail : (clock : String → Stamp) (id : String) → AckCall
  skip : (clock : String → Stamp) (skips : List Skip) → AckCall

abbrev pub after_call : List ProcessingAck → AckCall → List ProcessingAck
after_call acks (claim clock ids) = mark_processing clock ids acks
after_call acks (complete clock ids) = mark_completed clock ids acks
after_call acks (fail clock id) = mark_failed clock id acks
after_call acks (skip clock skips) = mark_script_skipped clock skips acks

unfoldable pub after_calls : List AckCall → List ProcessingAck → List ProcessingAck
after_calls [] acks = acks
after_calls (c ∷ cs) acks = after_calls cs (after_call acks c)

acked_still :
    (clock : String → Stamp) (status : AckStatus) (id other : String) (acks : List ProcessingAck)
    → is_acked acks other ≡ true
    → is_acked (ack_with clock status id acks) other ≡ true
acked_still clock status id other acks h =
    is_acked-ack_with clock status id other acks ∙ ground arith

all_acked_still :
    (clock : String → Stamp) (status : AckStatus) (ids : List String) (other : String)
    (acks : List ProcessingAck)
    → is_acked acks other ≡ true
    → is_acked (ack_all clock status ids acks) other ≡ true
all_acked_still clock status ids other acks h =
    is_acked-ack_all clock status ids other acks ∙ ground arith

skipped_still :
    (clock : String → Stamp) (skips : List Skip) (other : String) (acks : List ProcessingAck)
    → is_acked acks other ≡ true
    → is_acked (mark_script_skipped clock skips acks) other ≡ true
unfolding mark_script_skipped
skipped_still clock [] other acks h = h
skipped_still clock (s ∷ skips) other acks h =
    skipped_still clock skips other (ack_with clock (status_of_skip s.reason) s.id acks)
      (acked_still clock (status_of_skip s.reason) s.id other acks h)

call_still :
    (c : AckCall) (other : String) (acks : List ProcessingAck)
    → is_acked acks other ≡ true
    → is_acked (after_call acks c) other ≡ true
unfolding mark_processing mark_completed mark_failed
call_still (claim clock ids) other acks h =
    all_acked_still clock AckStatus.processing ids other acks h
call_still (complete clock ids) other acks h =
    all_acked_still clock AckStatus.completed ids other acks h
call_still (fail clock id) other acks h = acked_still clock AckStatus.failed id other acks h
call_still (skip clock skips) other acks h = skipped_still clock skips other acks h

pub calls_still :
    (cs : List AckCall) (other : String) (acks : List ProcessingAck)
    → is_acked acks other ≡ true
    → is_acked (after_calls cs acks) other ≡ true
unfolding after_calls
calls_still [] other acks h = h
calls_still (c ∷ cs) other acks h =
    calls_still cs other (after_call acks c) (call_still c other acks h)
