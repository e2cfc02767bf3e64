-- ===== src/SessionDb/Seq.antt =====
-- The numbering of messages_in: `nextEvenSeq` and the inserts that use it.
use aimclaw.Base.{
  ℕ, ◌%◌, ◌<◌, str_eq, str_eq_iff, ◌≡◌, ◌≢◌, ◌↔◌, refl, Bool, true, false, ◌||◌, none, some, List,
  [], ◌∷◌, ◌++◌, All, All-append, any, ◌==◌, arith, Bool-cases, inl, inr,
}
use aimclaw.SessionDb.{
  MessageIn, NewMessage, max_seq, next_even_seq, insert_row, insert_message, has_id, new_row,
}

-- No later row has this row's id or number.
abbrev pub IsApart : MessageIn → MessageIn → Type 0
IsApart m n = (n.id ≢ m.id) × (n.seq ≢ m.seq)

abbrev pub ArePairwiseApart : List MessageIn → Type 0
ArePairwiseApart [] = Unit
ArePairwiseApart (m ∷ ms) = All (IsApart m) ms × ArePairwiseApart ms

abbrev pub HasHostSeq : MessageIn → Type 0
HasHostSeq m = (m.seq % 2 ≡ 0) × (0 < m.seq)

-- The keys are unique, and every number is even and positive.
abbrev pub IsWellFormed : List MessageIn → Type 0
IsWellFormed rows = ArePairwiseApart rows × All HasHostSeq rows

next_even_seq-even :
    (rows : List MessageIn) → (next_even_seq rows % 2 ≡ 0) × (0 < next_even_seq rows)
unfolding next_even_seq
next_even_seq-even rows = ground arith

max_seq-lt : (rows : List MessageIn) → max_seq rows < next_even_seq rows
unfolding next_even_seq
max_seq-lt rows = ground arith

le-max_seq : (rows : List MessageIn) (n : ℕ) → max_seq rows < n → All (λ m. m.seq < n) rows
unfolding max_seq
le-max_seq [] n h = tt
le-max_seq (m ∷ ms) n h = (omega arith, le-max_seq ms n (omega arith))

-- The number that a new row gets is even, and greater than that of every row.
pub next_even_seq_fresh :
    (rows : List MessageIn)
    → (next_even_seq rows % 2 ≡ 0) × All (λ m. m.seq < next_even_seq rows) rows
next_even_seq_fresh rows =
    ((next_even_seq-even rows).0, le-max_seq rows (next_even_seq rows) (max_seq-lt rows))

abbrev clashes : MessageIn → MessageIn → Bool
clashes row m = str_eq m.id row.id || m.seq == row.seq

any-clashes-eq :
    (row : MessageIn) (rows : List MessageIn)
    → All (λ m. m.seq < row.seq) rows
    → any (clashes row) rows ≡ any (has_id row.id) rows
any-clashes-eq row [] h = refl
any-clashes-eq row (m ∷ ms) (p, h) = ground (arith, any-clashes-eq row ms h)

concat-apart :
    (row : MessageIn) (rows : List MessageIn)
    → any (clashes row) rows ≡ false
    → ArePairwiseApart rows
    → ArePairwiseApart (rows ++ row ∷ [])
concat-apart row [] e h = (tt, tt)
concat-apart row (m ∷ ms) e (p, h) = (
  All-append (IsApart m) ms (row ∷ []) p
      ((ground (arith, str_eq_iff m.id row.id), ground arith), tt),
  concat-apart row ms (ground arith) h,
)

insert_row-IsWellFormed :
    (row : MessageIn) (rows rows' : List MessageIn)
    → HasHostSeq row
    → insert_row row rows ≡ some rows'
    → IsWellFormed rows
    → IsWellFormed rows'
unfolding insert_row
insert_row-IsWellFormed row rows rows' s e (apart, host) =
    elim (Bool-cases (any (clashes row) rows)) [
      | inl clash ↦ ground arith
      | inr free ↦
          let here : rows ++ row ∷ [] ≡ rows' = ground arith in
          rw (← here)
            (concat-apart row rows free apart, All-append HasHostSeq rows (row ∷ []) host (s, tt))
    ]

-- An insert of a row with a fresh id and the next number succeeds.
pub insert_row_fresh :
    (row : MessageIn) (rows : List MessageIn)
    → any (has_id row.id) rows ≡ false
    → row.seq ≡ next_even_seq rows
    → insert_row row rows ≡ some (rows ++ row ∷ [])
unfolding insert_row
insert_row_fresh row rows free e =
    ground (arith, any-clashes-eq row rows (le-max_seq rows row.seq (rw e (max_seq-lt rows))))

-- A message that is inserted keeps the keys unique and the numbers even and positive.
pub insert_message-IsWellFormed :
    (rows rows' : List MessageIn) (message : NewMessage)
    → IsWellFormed rows
    → insert_message rows message ≡ some rows'
    → IsWellFormed rows'
unfolding insert_message
insert_message-IsWellFormed rows rows' message h e =
    insert_row-IsWellFormed (new_row rows message) rows rows' (next_even_seq-even rows) e h

-- An insert throws exactly when the id is taken: the UNIQUE constraint on the number never fires.
pub insert_message-eq-none_iff :
    (rows : List MessageIn) (message : NewMessage)
    → (insert_message rows message ≡ none) ↔ (any (has_id message.id) rows ≡ true)
unfolding insert_message insert_row
insert_message-eq-none_iff rows message = ground (
  arith,
  any-clashes-eq (new_row rows message) rows
      (le-max_seq rows (next_even_seq rows) (max_seq-lt rows)),
)
