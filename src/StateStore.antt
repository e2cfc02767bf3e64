-- ===== src/StateStore.antt =====
-- state-sqlite.ts: the store of the chat library, with its values, subscriptions, locks and lists. A method
-- reads the clock once: `now`. The token of a lock is drawn: `token`.
pub mod Locks
pub mod Runs
pub mod Queues
use Prim.Native.String.{◌++◌}
use mathlib.Core.List
use aimclaw.Base.{
  ℕ, suc, ◌+◌, ◌-◌, max, String, str_eq, Bool, true, false, not, ◌&&◌, ◌||◌, Option, none, some,
  List, [], ◌∷◌, any, filter, find, count, map, update_where, length, ltb, leb, ◌==◌, if◌then◌else◌,
}
use aimclaw.Json.{Json}

pub record Value : Type 0 where
  pub key : String
  pub value : Json
  pub expires_at : Option ℕ

-- A row of chat_sdk_locks, and the Lock that a caller holds, whose thread id has no namespace
pub record Lock : Type 0 where
  pub thread_id : String
  pub token : String
  pub expires_at : ℕ

pub record Item : Type 0 where
  pub key : String
  pub idx : ℕ
  pub value : Json
  pub expires_at : Option ℕ

pub record Store : Type 0 where
  pub kv : List Value
  pub subscriptions : List String
  pub locks : List Lock
  pub lists : List Item

-- `expires_at < now`, false on NULL
abbrev pub is_over : ℕ → Option ℕ → Bool
is_over now none = false
is_over now (some at) = ltb at now

-- `expires_at && expires_at < now`
abbrev pub is_past : ℕ → Option ℕ → Bool
is_past now none = false
is_past now (some at) = not (at == 0) && ltb at now

unfoldable pub cleanup : ℕ → Store → Store
cleanup now s = record s {
  kv = filter (λ v. not (is_over now v.expires_at)) s.kv;
  locks = filter (λ l. not (ltb l.expires_at now)) s.locks;
  lists = filter (λ i. not (is_over now i.expires_at)) s.lists;
}

-- A lifetime of 0 is none.
abbrev pub expiry : ℕ → Option ℕ → Option ℕ
expiry now none = none
expiry now (some ttl) = if ttl == 0 then none else some (now + ttl)

abbrev pub has_key : String → Value → Bool
has_key k v = str_eq v.key k

abbrev pub without : String → Store → Store
without k s = record s { kv = filter (λ v. not (has_key k v)) s.kv }

-- INSERT OR IGNORE tells whether it has added its row.
abbrev pub add_value : Value → Store → Bool × Store
add_value v s =
    if any (has_key v.key) s.kv
    then (false, s)
    else (true, record s { kv = List.◌++◌ s.kv (v ∷ []) })

abbrev pub drop_past : ℕ → String → Store → Store
drop_past now k s = elim (find (has_key k) s.kv) [
  | none ↦ s
  | some v ↦ if is_past now v.expires_at then without k s else s
]

abbrev has_thread : String → Lock → Bool
has_thread k l = str_eq l.thread_id k

abbrev pub is_lock : String → String → Lock → Bool
is_lock k token l = str_eq l.thread_id k && str_eq l.token token

-- INSERT OR IGNORE of a row, after the live locks, with the lock for the caller
abbrev pub acquired : Bool → Lock → Lock → List Lock → Store → Option Lock × Store
acquired true lock row live s = (none, record s { locks = live })
acquired false lock row live s = (some lock, record s { locks = List.◌++◌ live (row ∷ []) })

-- The greatest index of a key, plus one; 0 where it has none
unfoldable pub next_idx : String → List Item → ℕ
next_idx k [] = 0
next_idx k (i ∷ is) =
    let rest = next_idx k is in if str_eq i.key k then max (suc i.idx) rest else rest

abbrev pub of_key : String → Item → Bool
of_key k i = str_eq i.key k

-- DELETE … WHERE key = ? AND idx <= cutoff, where the cutoff is not negative
abbrev pub trimmed : String → ℕ → Option ℕ → List Item → List Item
trimmed k next none is = is
trimmed k next (some bound) is =
    if bound == 0 || ltb next bound
    then is
    else filter (λ i. not (of_key k i && leb i.idx (next - bound))) is

-- The first item of a key in the order of the index
abbrev lower_of : Item → Option Item → Item
lower_of i none = i
lower_of i (some j) = if leb i.idx j.idx then i else j

unfoldable pub first_item : String → List Item → Option Item
first_item k [] = none
first_item k (i ∷ is) =
    let rest = first_item k is in if of_key k i then some (lower_of i rest) else rest

abbrev pub taken : String → Store → Option Item → Option Json × Store
taken k s none = (none, s)
taken k s (some i) =
    (some i.value, record s { lists = filter (λ j. not (of_key k j && j.idx == i.idx)) s.lists })

insert_by_idx : Item → List Item → List Item
insert_by_idx i [] = i ∷ []
insert_by_idx i (j ∷ js) =
    let later = insert_by_idx i js in if leb i.idx j.idx then i ∷ (j ∷ js) else j ∷ later

by_idx : List Item → List Item
by_idx [] = []
by_idx (i ∷ is) = insert_by_idx i (by_idx is)

abbrev is_open : ℕ → Option ℕ → Bool
is_open now none = true
is_open now (some at) = ltb now at

module _ (namespace : Option String) where
  -- The one way from a key to the database
  unfoldable pub k : String → String
  k key = elim namespace [ none ↦ key | some n ↦ if str_eq n "" then key else n ++ (":" ++ key) ]

  unfoldable pub get : ℕ → String → Store → Option Json × Store
  unfolding k cleanup
  get now key s =
      let s' = cleanup now s in
      elim (find (has_key (k key)) s'.kv) [
        | none ↦ (none, s')
        | some v ↦
            if is_past now v.expires_at then (none, without (k key) s') else (some v.value, s')
      ]

  unfoldable pub set : ℕ → String → Json → Option ℕ → Store → Store
  unfolding k
  set now key value ttl s = record s {
    kv =
        List.◌++◌ (filter (λ v. not (has_key (k key) v)) s.kv)
          (record { key = k key; value = value; expires_at = expiry now ttl } ∷ []);
  }

  unfoldable pub set_if_not_exists : ℕ → String → Json → Option ℕ → Store → Bool × Store
  unfolding k
  set_if_not_exists now key value ttl s =
      add_value (record { key = k key; value = value; expires_at = expiry now ttl })
        (drop_past now (k key) s)

  unfoldable pub delete : String → Store → Store
  unfolding k
  delete key s = without (k key) s

  unfoldable pub subscribe : String → Store → Store
  unfolding k
  subscribe thread s = record s {
    subscriptions =
        List.◌++◌ (filter (λ t. not (str_eq t (k thread))) s.subscriptions) (k thread ∷ []);
  }

  unfoldable pub unsubscribe : String → Store → Store
  unfolding k
  unsubscribe thread s = record s {
    subscriptions = filter (λ t. not (str_eq t (k thread))) s.subscriptions;
  }

  unfoldable pub is_subscribed : String → Store → Bool
  unfolding k
  is_subscribed thread s = any (λ t. str_eq t (k thread)) s.subscriptions

  unfoldable pub acquire_lock : ℕ → String → String → ℕ → Store → Option Lock × Store
  unfolding k
  acquire_lock now token thread ttl s =
      let live = filter (λ l. not (has_thread (k thread) l && ltb l.expires_at now)) s.locks in
      acquired (any (has_thread (k thread)) live)
        (record { thread_id = thread; token = token; expires_at = now + ttl })
        (record { thread_id = k thread; token = token; expires_at = now + ttl }) live s

  unfoldable pub release_lock : Lock → Store → Store
  unfolding k
  release_lock l s = record s {
    locks = filter (λ r. not (is_lock (k l.thread_id) l.token r)) s.locks;
  }

  -- With the lock as the caller has it afterwards
  unfoldable pub extend_lock : ℕ → Lock → ℕ → Store → Bool × Lock × Store
  unfolding k
  extend_lock now l ttl s =
      if any (is_lock (k l.thread_id) l.token) s.locks
      then (
        true,
        record l { expires_at = now + ttl },
        record s {
          locks =
              update_where (is_lock (k l.thread_id) l.token)
                (λ r. record r { expires_at = now + ttl }) s.locks;
        },
      )
      else (false, l, s)

  unfoldable pub force_release_lock : String → Store → Store
  unfolding k
  force_release_lock thread s = record s {
    locks = filter (λ l. not (has_thread (k thread) l)) s.locks;
  }

  unfoldable pub append_to_list : ℕ → String → Json → Option ℕ → Option ℕ → Store → Store
  unfolding k next_idx
  append_to_list now key value bound ttl s =
      let next = next_idx (k key) s.lists in
      record s {
        lists = trimmed (k key) next bound (
            List.◌++◌ s.lists (
              record { key = k key; idx = next; value = value; expires_at = expiry now ttl } ∷ []));
      }

  unfoldable pub get_list : ℕ → String → Store → List Json
  unfolding k insert_by_idx by_idx
  get_list now key s =
      map (λ i. i.value)
        (by_idx (filter (λ i. of_key (k key) i && is_open now i.expires_at) s.lists))

  abbrev pub queue_of : String → String
  queue_of thread = "queue:" ++ thread

  unfoldable pub queue_depth : String → Store → ℕ
  unfolding k
  queue_depth thread s = count (of_key (k (queue_of thread))) s.lists

  unfoldable pub enqueue : ℕ → String → Json → ℕ → Store → ℕ × Store
  unfolding append_to_list queue_depth
  enqueue now thread entry max_size s =
      let s' = append_to_list now (queue_of thread) entry (some max_size) none s in
      (queue_depth thread s', s')

  unfoldable pub dequeue : String → Store → Option Json × Store
  unfolding k first_item
  dequeue thread s = taken (k (queue_of thread)) s (first_item (k (queue_of thread)) s.lists)
