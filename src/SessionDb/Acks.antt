-- ===== src/SessionDb/Acks.antt =====
-- Processing acknowledgements: what `syncProcessingAcks` makes of each row.
use aimclaw.Base.{
  str_eq, ◌≡◌, refl, ◌∙◌, Bool, true, false, not, ◌&&◌, Option, none, some, List, [], ◌∷◌, map,
  find, update_where, if◌then◌else◌, arith, Bool-cases, inl, inr,
}
use aimclaw.SessionDb.{
  MessageIn, ProcessingAck, is_terminal, is_finished, has_id, settle, sync_processing_acks,
}

abbrev pub acks_it : MessageIn → ProcessingAck → Bool
acks_it m a = is_finished a.status && str_eq m.id a.message_id

-- The first finished acknowledgement of a row decides.
abbrev pub settle_by : Option ProcessingAck → MessageIn → MessageIn
settle_by none m = m
settle_by (some a) m = settle a.status m

-- The meaning of the statements, row by row: a completed or failed row stays, another takes the
-- outcome of its first finished acknowledgement.
abbrev pub settled : List ProcessingAck → MessageIn → MessageIn
settled acks m = if is_terminal m.status then m else settle_by (find (acks_it m) acks) m

settled-cons_finished :
    (a : ProcessingAck) (acks : List ProcessingAck) (m : MessageIn)
    → is_finished a.status ≡ true
    → settled acks
        (if has_id a.message_id m && not (is_terminal m.status) then settle a.status m else m)
      ≡ settled (a ∷ acks) m
settled-cons_finished a acks m f = ground arith

map-update_where :
    (a : ProcessingAck) (acks : List ProcessingAck) (rows : List MessageIn)
    → is_finished a.status ≡ true
    → map (settled acks) (
        update_where
          (λ m. has_id a.message_id m && not (is_terminal m.status))
          (settle a.status)
          rows)
      ≡ map (settled (a ∷ acks)) rows
map-update_where a acks [] f = refl
map-update_where a acks (m ∷ ms) f =
    cc (settled-cons_finished a acks m f, map-update_where a acks ms f)

map-settled-nil : (rows : List MessageIn) → rows ≡ map (settled []) rows
map-settled-nil [] = refl
map-settled-nil (m ∷ ms) = ground (arith, map-settled-nil ms)

map-settled-skip :
    (a : ProcessingAck) (acks : List ProcessingAck) (rows : List MessageIn)
    → is_finished a.status ≡ false
    → map (settled acks) rows ≡ map (settled (a ∷ acks)) rows
map-settled-skip a acks [] f = refl
map-settled-skip a acks (m ∷ ms) f = ground (arith, map-settled-skip a acks ms f)

-- The update statements, run in the order of the acknowledgements, settle each row on its own.
pub sync_processing_acks-eq-map :
    (acks : List ProcessingAck) (rows : List MessageIn)
    → sync_processing_acks rows acks ≡ map (settled acks) rows
unfolding sync_processing_acks
sync_processing_acks-eq-map [] rows = map-settled-nil rows
sync_processing_acks-eq-map (a ∷ acks) rows = elim (Bool-cases (is_finished a.status)) [
  | inl f ↦ rw f (sync_processing_acks-eq-map acks _ ∙ map-update_where a acks rows f)
  | inr f ↦ rw f (sync_processing_acks-eq-map acks rows ∙ map-settled-skip a acks rows f)
]

settled_idempotent :
    (acks : List ProcessingAck) (m : MessageIn) → settled acks (settled acks m) ≡ settled acks m
settled_idempotent acks m = ground arith

map-settled_idempotent :
    (acks : List ProcessingAck) (rows : List MessageIn)
    → map (settled acks) (map (settled acks) rows) ≡ map (settled acks) rows
map-settled_idempotent acks [] = refl
map-settled_idempotent acks (m ∷ ms) =
    cc (settled_idempotent acks m, map-settled_idempotent acks ms)

-- The same acknowledgements, read again on the next tick, change nothing more.
pub sync_processing_acks_idempotent :
    (acks : List ProcessingAck) (rows : List MessageIn)
    → sync_processing_acks (sync_processing_acks rows acks) acks ≡ sync_processing_acks rows acks
sync_processing_acks_idempotent acks rows =
    rw (sync_processing_acks-eq-map acks rows) (
      sync_processing_acks-eq-map acks (map (settled acks) rows) ∙ map-settled_idempotent acks rows)
