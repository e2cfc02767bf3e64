-- ===== src/Runner/Inbox/Pickup.antt =====
-- Which messages a poll picks up, and in which order.
use mathlib.Core.List
use mathlib.Core.List.{reverse-cons, reverse-reverse, append-nil}
use aimclaw.Base.{
  latest, ℕ, zero, suc, ◌<◌, ◌≤◌, ltb, ◌≡◌, refl, sym, ap, ◌∙◌, Bool, not, List, [], ◌∷◌, ◌++◌, All,
  All-append, filter, length, length-append, arith, Bool-cases, inl, inr,
}
use aimclaw.SessionDb.{MessageIn, ProcessingAck}
use aimclaw.Runner.Inbox.{
  insert_newest_first, newest_first, take, is_acked, is_up, get_pending_messages,
}

-- In the order of the numbers, as the host adds its rows
abbrev pub AreAscending : List MessageIn → Type 0
AreAscending [] = Unit
AreAscending (m ∷ ms) = All (λ (n : MessageIn). m.seq < n.seq) ms × AreAscending ms

impossible : {n : ℕ} → n < 0 → ⊥
impossible h = omega arith

module _ {ℓ} {A : Type ℓ} where
  length-reverse : (xs : List A) → length (List.reverse xs) ≡ length xs
  length-reverse [] = refl
  length-reverse (x ∷ xs) =
      rw (reverse-cons x xs)
        (omega (arith, length-append (List.reverse xs) (x ∷ []), length-reverse xs))

  take_all : (n : ℕ) (xs : List A) (x : A) → length xs < n → take n (xs ++ x ∷ []) ≡ xs ++ x ∷ []
  take_all zero [] x h = elim (impossible h) [ ]
  take_all zero (y ∷ ys) x h = elim (impossible h) [ ]
  take_all (suc zero) [] x h = refl
  take_all (suc (suc n)) [] x h = refl
  take_all (suc n) (y ∷ ys) x h = ap (λ r. y ∷ r) (take_all n ys x (omega arith))

  take_less : (n : ℕ) (xs : List A) (x : A) → n ≤ length xs → take n (xs ++ x ∷ []) ≡ take n xs
  take_less zero [] x h = refl
  take_less zero (y ∷ ys) x h = refl
  take_less (suc n) [] x h = elim (impossible {n = n} (omega arith)) [ ]
  take_less (suc n) (y ∷ ys) x h = ap (λ r. y ∷ r) (take_less n ys x (omega arith))

  take_nil : (n : ℕ) → take {A = A} n [] ≡ []
  take_nil zero = refl
  take_nil (suc n) = refl

  latest_all : (n : ℕ) (x : A) (xs : List A) → length xs < n → latest n (x ∷ xs) ≡ x ∷ xs
  latest_all n x xs h = ground arith

  latest_less : (n : ℕ) (x : A) (xs : List A) → n ≤ length xs → latest n (x ∷ xs) ≡ latest n xs
  latest_less n x xs h = ground arith

  reverse-take : (n : ℕ) (xs : List A) → List.reverse (take n (List.reverse xs)) ≡ latest n xs
  reverse-take n [] = ap List.reverse (take_nil n)
  reverse-take n (x ∷ xs) =
      ap (λ r. List.reverse (take n r)) (reverse-cons x xs)
      ∙ elim (Bool-cases (ltb (length xs) n)) [
        | inl e ↦
            ap List.reverse (take_all n (List.reverse xs) x (ground (arith, length-reverse xs)))
            ∙ (ap List.reverse (sym (reverse-cons x xs))
                ∙ (reverse-reverse (x ∷ xs) ∙ sym (latest_all n x xs (ground arith))))
        | inr e ↦
            ap List.reverse (take_less n (List.reverse xs) x (ground (arith, length-reverse xs)))
            ∙ (reverse-take n xs ∙ sym (latest_less n x xs (ground arith)))
      ]

  pub filter-append :
      (p : A → Bool) (xs ys : List A) → filter p (xs ++ ys) ≡ filter p xs ++ filter p ys
  filter-append p [] ys = refl
  filter-append p (x ∷ xs) ys = elim (Bool-cases (p x)) [
    | inl e ↦ rw e (ap (λ r. x ∷ r) (filter-append p xs ys))
    | inr e ↦ rw e (filter-append p xs ys)
  ]

  filter-reverse :
      (p : A → Bool) (xs : List A) → filter p (List.reverse xs) ≡ List.reverse (filter p xs)
  filter-reverse p [] = refl
  filter-reverse p (x ∷ xs) =
      rw (reverse-cons x xs, filter-append p (List.reverse xs) (x ∷ []), filter-reverse p xs)
        (elim (Bool-cases (p x)) [
          | inl e ↦ rw e (sym (reverse-cons x (filter p xs)))
          | inr e ↦ rw e (append-nil _)
        ])

-- The sort by number turns the rows around.
insert-last :
    (m : MessageIn) (ns : List MessageIn)
    → All (λ (n : MessageIn). m.seq < n.seq) ns
    → insert_newest_first m ns ≡ ns ++ m ∷ []
unfolding insert_newest_first
insert-last m [] h = refl
insert-last m (n ∷ ns) (p, h) = ground (arith, insert-last m ns h)

pub All-reverse {ℓ κ} :
    {A : Type ℓ} (P : A → Type κ) (xs : List A) → All P xs → All P (List.reverse xs)
All-reverse P [] h = tt
All-reverse P (x ∷ xs) (p, h) =
    rw (reverse-cons x xs) (All-append P (List.reverse xs) (x ∷ []) (All-reverse P xs h) (p, tt))

newest_first-eq-reverse :
    (rows : List MessageIn) → AreAscending rows → newest_first rows ≡ List.reverse rows
unfolding newest_first
newest_first-eq-reverse [] h = refl
newest_first-eq-reverse (m ∷ ms) (p, h) =
    rw (newest_first-eq-reverse ms h, reverse-cons m ms)
      (insert-last m (List.reverse ms) (All-reverse (λ (n : MessageIn). m.seq < n.seq) ms p))

pub All-filter {ℓ κ} :
    {A : Type ℓ} (P : A → Type κ) (p : A → Bool) (xs : List A) → All P xs → All P (filter p xs)
All-filter P p [] h = tt
All-filter P p (x ∷ xs) (q, h) = elim (Bool-cases (p x)) [
  | inl e ↦ rw e (q, All-filter P p xs h)
  | inr e ↦ rw e (All-filter P p xs h)
]

AreAscending-filter :
    (p : MessageIn → Bool) (rows : List MessageIn)
    → AreAscending rows
    → AreAscending (filter p rows)
AreAscending-filter p [] h = tt
AreAscending-filter p (m ∷ ms) (q, h) = elim (Bool-cases (p m)) [
  | inl e ↦ rw e (All-filter (λ (n : MessageIn). m.seq < n.seq) p ms q, AreAscending-filter p ms h)
  | inr e ↦ rw e (AreAscending-filter p ms h)
]

-- A poll gives the last rows that are pending and due, at most as many as fit into a prompt, less those that are
-- claimed, in the order of their numbers.
pub get_pending_messages-eq :
    (now : ℕ) (has_on_wake first : Bool) (cap : ℕ) (rows : List MessageIn)
    (acks : List ProcessingAck)
    → AreAscending rows
    → get_pending_messages now has_on_wake first cap rows acks
      ≡ filter
          (λ m. not (is_acked acks m.id))
          (latest cap (filter (is_up now has_on_wake first) rows))
unfolding get_pending_messages
get_pending_messages-eq now has_on_wake first cap rows acks h =
    let up = filter (is_up now has_on_wake first) rows in
    let free = λ (m : MessageIn). not (is_acked acks m.id) in
    sym (filter-reverse free (take cap (newest_first up)))
    ∙ ap (filter free) (
        ap (λ r. List.reverse (take cap r))
          (newest_first-eq-reverse up (AreAscending-filter (is_up now has_on_wake first) rows h))
        ∙ reverse-take cap up)
