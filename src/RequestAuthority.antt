-- ===== src/RequestAuthority.antt =====
-- Who a privileged action is done for: custom/request-authority.ts. The map lives in memory.
use aimclaw.Base.{
  ℕ, ◌+◌, ◌<◌, String, str_eq, str_eq_iff, ◌≡◌, refl, ap, sym, ◌∙◌, false, not, Option, none, some,
  List, [], ◌∷◌, filter, find, leb, if◌then◌else◌, arith, Bool-cases, inl, inr,
}

abbrev pub authority_ttl_ms : ℕ
authority_ttl_ms = 900000

-- An entry of `activeBySession`.
pub record ActiveRequestAuthority : Type 0 where
  pub session : String
  pub message_id : String
  pub user_id : Option String
  pub expires_at : ℕ

abbrev delete : String → List ActiveRequestAuthority → List ActiveRequestAuthority
delete session entries = filter (λ a. not (str_eq a.session session)) entries

abbrev get : String → List ActiveRequestAuthority → Option ActiveRequestAuthority
get session entries = find (λ a. str_eq a.session session) entries

unfoldable pub record_active_requester :
    ℕ → String → String → Option String → List ActiveRequestAuthority → List ActiveRequestAuthority
record_active_requester now session message user entries =
    record {
      session = session;
      message_id = message;
      user_id = user;
      expires_at = now + authority_ttl_ms;
    }
    ∷ delete session entries

abbrev answer :
    ℕ
    → String
    → Option ActiveRequestAuthority
    → List ActiveRequestAuthority
    → Option String × List ActiveRequestAuthority
answer now message none entries = (none, entries)
answer now message (some active) entries =
    if leb active.expires_at now
    then (none, delete active.session entries)
    else if str_eq active.message_id message
    then (active.user_id, entries)
    else (none, entries)

-- `!messageId` holds of null and of the empty text.
unfoldable pub resolve_active_requester :
    ℕ
    → String
    → Option String
    → List ActiveRequestAuthority
    → Option String × List ActiveRequestAuthority
resolve_active_requester now session none entries = (none, entries)
resolve_active_requester now session (some message) entries =
    if str_eq message "" then (none, entries) else answer now message (get session entries) entries

pub data Call : Type 0 where
  recorded : (now : ℕ) (session message : String) (user : Option String) → Call
  resolved : (now : ℕ) (session : String) (message : Option String) → Call

abbrev pub apply : Call → List ActiveRequestAuthority → List ActiveRequestAuthority
apply (recorded now session message user) entries =
    record_active_requester now session message user entries
apply (resolved now session message) entries =
    (resolve_active_requester now session message entries).1

-- The map after some calls since the start, the latest first.
abbrev pub after : List Call → List ActiveRequestAuthority
after [] = []
after (c ∷ cs) = apply c (after cs)

-- The entry that the latest recording of a session made.
abbrev pub latest : String → List Call → Option ActiveRequestAuthority
latest s [] = none
latest s (recorded now session message user ∷ cs) =
    if str_eq session s
    then some (record {
      session = session;
      message_id = message;
      user_id = user;
      expires_at = now + authority_ttl_ms;
    })
    else latest s cs
latest s (resolved now session message ∷ cs) = latest s cs

get-delete_own :
    (s : String) (entries : List ActiveRequestAuthority) → get s (delete s entries) ≡ none
get-delete_own s [] = refl
get-delete_own s (x ∷ xs) = ground (arith, get-delete_own s xs)

get-delete_other :
    (s k : String) (entries : List ActiveRequestAuthority)
    → str_eq k s ≡ false
    → get s (delete k entries) ≡ get s entries
get-delete_other s k [] f = refl
get-delete_other s k (x ∷ xs) f = ground (
  arith,
  get-delete_other s k xs f,
  str_eq_iff x.session k,
  str_eq_iff x.session s,
  str_eq_iff k s,
)

get-delete :
    (s k : String) (entries : List ActiveRequestAuthority) (a : ActiveRequestAuthority)
    → get s (delete k entries) ≡ some a
    → get s entries ≡ some a
get-delete s k entries a e = elim (Bool-cases (str_eq k s)) [
  | inl t ↦
      let same : k ≡ s = (str_eq_iff k s).0 t in
      let gone : get s (delete k entries) ≡ none =
        ap (λ x. get s (delete x entries)) same ∙ get-delete_own s entries in
      cc
  | inr f ↦ sym (get-delete_other s k entries f) ∙ e
]

get-answer :
    (now : ℕ) (message s : String) (o : Option ActiveRequestAuthority)
    (entries : List ActiveRequestAuthority) (a : ActiveRequestAuthority)
    → get s (answer now message o entries).1 ≡ some a
    → get s entries ≡ some a
get-answer now message s none entries a e = e
get-answer now message s (some active) entries a e =
    ground (arith, get-delete s active.session entries a)

get-resolve :
    (now : ℕ) (session s : String) (message : Option String) (entries : List ActiveRequestAuthority)
    (a : ActiveRequestAuthority)
    → get s (resolve_active_requester now session message entries).1 ≡ some a
    → get s entries ≡ some a
unfolding resolve_active_requester
get-resolve now session s none entries a e = e
get-resolve now session s (some message) entries a e =
    ground (arith, get-answer now message s (get session entries) entries a)

-- What the map holds for a session is what the latest recording put there.
get-after :
    (s : String) (calls : List Call) (a : ActiveRequestAuthority)
    → get s (after calls) ≡ some a
    → latest s calls ≡ some a
unfolding record_active_requester
get-after s [] a e = cc
get-after s (recorded now session message user ∷ cs) a e = elim (Bool-cases (str_eq session s)) [
  | inl t ↦ ground arith
  | inr f ↦
      let there : get s (after cs) ≡ some a =
        sym (get-delete_other s session (after cs) f) ∙ ground arith in
      ground (arith, get-after s cs a there)
]
get-after s (resolved now session message ∷ cs) a e =
    get-after s cs a (get-resolve now session s message (after cs) a e)

answer_lem :
    (now : ℕ) (message user : String) (o : Option ActiveRequestAuthority)
    (entries : List ActiveRequestAuthority)
    → (answer now message o entries).0 ≡ some user
    → (a : ActiveRequestAuthority) × (o ≡ some a)
      × (a.message_id ≡ message)
      × (a.user_id ≡ some user)
      × (now < a.expires_at)
answer_lem now message user none entries e = cc
answer_lem now message user (some a) entries e =
    (a, refl, ground (arith, str_eq_iff a.message_id message), ground arith, ground arith)

-- After whatever calls since the start, an action is done for a user only if the latest message recorded for
-- the session is the one that the container names, that user sent it, and less than 15 minutes have passed
-- since it was recorded.
pub resolve_active_requester_lem :
    (now : ℕ) (session message user : String) (calls : List Call)
    → (resolve_active_requester now session (some message) (after calls)).0 ≡ some user
    → (a : ActiveRequestAuthority) × (latest session calls ≡ some a)
      × (a.message_id ≡ message)
      × (a.user_id ≡ some user)
      × (now < a.expires_at)
unfolding resolve_active_requester
resolve_active_requester_lem now session message user calls e =
    elim (Bool-cases (str_eq message "")) [
      | inl t ↦ absurd (ground arith)
      | inr f ↦
          let (a, found, named, by, fresh) =
            answer_lem now message user (get session (after calls)) (after calls) (ground arith) in
          (a, get-after session calls a found, named, by, fresh)
    ]
