-- ===== src/StateStore/Locks.antt =====
-- The locks of the threads.
use aimclaw.Base.{
  ℕ, ◌≤◌, String, str_eq, str_eq_iff, str_eq_refl, ◌≡◌, refl, sym, ap, ◌∙◌, Bool, true, false, not,
  ◌&&◌, ◌||◌, Option, none, some, List, [], ◌∷◌, any, any-append, filter, update_where, All, ltb,
  leb, arith, Bool-cases, inl, inr,
}
use aimclaw.StateStore.{
  Lock, Store, cleanup, has_thread, is_lock, k, acquired, acquire_lock, release_lock, extend_lock,
  force_release_lock,
}

-- What others do while a lock is held
pub data Call : Type 0 where
  clean : ℕ → Call
  acquire : ℕ → String → String → ℕ → Call
  release : Lock → Call
  extend : ℕ → Lock → ℕ → Call
  force : String → Call

module _ (namespace : Option String) where
  unfoldable pub after : Call → Store → Store
  unfolding cleanup acquire_lock release_lock extend_lock force_release_lock
  after (clean now) s = cleanup now s
  after (acquire now token thread ttl) s = (acquire_lock namespace now token thread ttl s).1
  after (release l) s = release_lock namespace l s
  after (extend now l ttl) s = (extend_lock namespace now l ttl s).2
  after (force thread) s = force_release_lock namespace thread s

  unfoldable pub after_all : List Call → Store → Store
  unfolding after
  after_all [] s = s
  after_all (c ∷ cs) s = after_all cs (after c s)

  -- The call comes before the lock expires, and is none of its holder.
  abbrev pub IsForeign : Lock → Call → Type 0
  IsForeign l (clean now) = now ≤ l.expires_at
  IsForeign l (acquire now token thread ttl) = now ≤ l.expires_at
  IsForeign l (release m) = is_lock (k namespace m.thread_id) m.token l ≡ false
  IsForeign l (extend now m ttl) = is_lock (k namespace m.thread_id) m.token l ≡ false
  IsForeign l (force thread) = str_eq (k namespace thread) l.thread_id ≡ false

-- The row of the lock, with its expiry
abbrev is_row : Lock → Lock → Bool
is_row l r =
    is_lock l.thread_id l.token r
    && (leb l.expires_at r.expires_at && leb r.expires_at l.expires_at)

IsHeld : Lock → Store → Type 0
IsHeld l s = any (is_row l) s.locks ≡ true

or_left : (a b : Bool) → a ≡ true → (a || b) ≡ true
or_left true b h = refl
or_left false b h = cc

or_right : (a b : Bool) → b ≡ true → (a || b) ≡ true
or_right true b h = refl
or_right false b h = h

any-weaken :
    (p q : Lock → Bool) (rows : List Lock)
    → ((r : Lock) → p r ≡ true → q r ≡ true)
    → any p rows ≡ true
    → any q rows ≡ true
any-weaken p q [] f h = cc
any-weaken p q (r ∷ rows) f h = elim (Bool-cases (p r)) [
  | inl e ↦ or_left (q r) _ (f r e)
  | inr e ↦ or_right (q r) _ (any-weaken p q rows f (ground arith))
]

any-filter :
    (p q : Lock → Bool) (rows : List Lock)
    → ((r : Lock) → p r ≡ true → q r ≡ true)
    → any p rows ≡ true
    → any p (filter q rows) ≡ true
any-filter p q [] f h = h
any-filter p q (r ∷ rows) f h = elim (Bool-cases (p r)) [
  | inl e ↦ rw (f r e) (rw e refl)
  | inr e ↦
      let rest = any-filter p q rows f (ground arith) in
      elim (Bool-cases (q r)) [ inl d ↦ rw d (or_right (p r) _ rest) | inr d ↦ rw d rest ]
]

any-update :
    (p q : Lock → Bool) (f : Lock → Lock) (rows : List Lock)
    → ((r : Lock) → p r ≡ true → q r ≡ false)
    → any p rows ≡ true
    → any p (update_where q f rows) ≡ true
any-update p q f [] g h = h
any-update p q f (r ∷ rows) g h = elim (Bool-cases (p r)) [
  | inl e ↦ rw (g r e) (rw e refl)
  | inr e ↦ or_right _ _ (any-update p q f rows g (ground arith))
]

module _ (namespace : Option String) (l : Lock) where
  row-apart :
      (thread token : String) (r : Lock)
      → is_row l r ≡ true
      → is_lock thread token l ≡ false
      → is_lock thread token r ≡ false
  row-apart thread token r e h = ground (
    arith,
    str_eq_iff r.thread_id l.thread_id,
    str_eq_iff r.token l.token,
    str_eq_iff r.thread_id thread,
    str_eq_iff l.thread_id thread,
    str_eq_iff r.token token,
    str_eq_iff l.token token,
  )

  acquire-IsHeld :
      (now : ℕ) (token thread : String) (ttl : ℕ) (s : Store)
      → now ≤ l.expires_at
      → IsHeld l s
      → IsHeld l ((acquire_lock namespace now token thread ttl s).1)
  unfolding acquire_lock IsHeld
  acquire-IsHeld now token thread ttl s h held =
      let q = λ (r : Lock). not (has_thread (k namespace thread) r && ltb r.expires_at now) in
      let live = any-filter (is_row l) q s.locks (λ r e. ground arith) held in
      elim (Bool-cases (any (has_thread (k namespace thread)) (filter q s.locks))) [
        | inl e ↦ rw e live
        | inr e ↦ rw e (any-append (is_row l) (filter q s.locks) _ ∙ or_left _ _ live)
      ]

  extend-IsHeld :
      (now : ℕ) (m : Lock) (ttl : ℕ) (s : Store)
      → is_lock (k namespace m.thread_id) m.token l ≡ false
      → IsHeld l s
      → IsHeld l ((extend_lock namespace now m ttl s).2)
  unfolding extend_lock IsHeld
  extend-IsHeld now m ttl s f h =
      elim (Bool-cases (any (is_lock (k namespace m.thread_id) m.token) s.locks)) [
        | inr e ↦ rw e h
        | inl e ↦ rw e (
            any-update (is_row l) (is_lock (k namespace m.thread_id) m.token) _ s.locks
              (λ r d. row-apart (k namespace m.thread_id) m.token r d f) h)
      ]

  after-IsHeld :
      (c : Call) (s : Store) → IsForeign namespace l c → IsHeld l s → IsHeld l (after namespace c s)
  unfolding after cleanup release_lock extend_lock force_release_lock IsHeld
  after-IsHeld (clean now) s f h = any-filter (is_row l) _ s.locks (λ r e. ground arith) h
  after-IsHeld (acquire now token thread ttl) s f h = acquire-IsHeld now token thread ttl s f h
  after-IsHeld (release m) s f h =
      any-filter (is_row l) _ s.locks
        (λ r e. ap not (row-apart (k namespace m.thread_id) m.token r e f)) h
  after-IsHeld (extend now m ttl) s f h = extend-IsHeld now m ttl s f h
  after-IsHeld (force thread) s f h =
      any-filter (is_row l) _ s.locks
        (λ r e. ground (
          arith,
          str_eq_iff r.thread_id l.thread_id,
          str_eq_iff r.thread_id (k namespace thread),
          str_eq_iff (k namespace thread) l.thread_id,
        ))
        h

  after_all-IsHeld :
      (cs : List Call) (s : Store)
      → All (IsForeign namespace l) cs
      → IsHeld l s
      → IsHeld l (after_all namespace cs s)
  unfolding after_all
  after_all-IsHeld [] s f h = h
  after_all-IsHeld (c ∷ cs) s (f, fs) h =
      after_all-IsHeld cs (after namespace c s) fs (after-IsHeld c s f h)

  IsHeld-refuses :
      (now : ℕ) (token thread : String) (ttl : ℕ) (s : Store)
      → l.thread_id ≡ k namespace thread
      → now ≤ l.expires_at
      → IsHeld l s
      → (acquire_lock namespace now token thread ttl s).0 ≡ none
  unfolding acquire_lock IsHeld
  IsHeld-refuses now token thread ttl s e h held =
      let q = λ (r : Lock). not (has_thread (k namespace thread) r && ltb r.expires_at now) in
      let live = any-filter (is_row l) q s.locks (λ r d. ground arith) held in
      rw
        (any-weaken (is_row l) (has_thread (k namespace thread)) (filter q s.locks)
          (λ r d. rw (← e) (ground arith)) live)
        refl

is_row_refl : (l : Lock) → is_row l l ≡ true
is_row_refl l = ground (arith, str_eq_refl l.thread_id, str_eq_refl l.token)

acquired_row :
    (b : Bool) (lock row : Lock) (live : List Lock) (s s' : Store) (l : Lock)
    → acquired b lock row live s ≡ (some l, s')
    → (lock ≡ l) × (any (is_row row) s'.locks ≡ true)
acquired_row true lock row live s s' l e = cc
acquired_row false lock row live s s' l e = (
  cc,
  ap (λ (o : Option Lock × Store). any (is_row row) (o.1).locks) (sym e)
      ∙ (any-append (is_row row) live (row ∷ []) ∙ or_right _ _ (or_left _ _ (is_row_refl row))),
)

acquired-IsHeld :
    (namespace : Option String) (now : ℕ) (token thread : String) (ttl : ℕ) (s s' : Store)
    (l : Lock)
    → acquire_lock namespace now token thread ttl s ≡ (some l, s')
    → IsHeld (record l { thread_id = k namespace thread }) s'
unfolding acquire_lock IsHeld
acquired-IsHeld namespace now token thread ttl s s' l e =
    let (same, held) = acquired_row _ _ _ _ s s' l e in rw (← same) held

-- A thread that is locked is locked for its holder alone: until the lock expires, and unless the holder's own lock is
-- released or extended, or the thread's lock is forced open, nobody acquires the thread again, whatever the others
-- acquire, release, extend or force open in the meantime.
pub acquire_lock_excludes :
    (namespace : Option String) (now : ℕ) (token thread : String) (ttl : ℕ) (s s' : Store)
    (l : Lock) (calls : List Call) (now' : ℕ) (token' : String) (ttl' : ℕ)
    → acquire_lock namespace now token thread ttl s ≡ (some l, s')
    → All (IsForeign namespace (record l { thread_id = k namespace thread })) calls
    → now' ≤ l.expires_at
    → (acquire_lock namespace now' token' thread ttl' (after_all namespace calls s')).0 ≡ none
acquire_lock_excludes namespace now token thread ttl s s' l calls now' token' ttl' e foreign h =
    let row = record l { thread_id = k namespace thread } in
    IsHeld-refuses namespace row now' token' thread ttl' (after_all namespace calls s') refl h (
      after_all-IsHeld namespace row calls s' foreign
        (acquired-IsHeld namespace now token thread ttl s s' l e))
