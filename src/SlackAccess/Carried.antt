-- ===== src/SlackAccess/Carried.antt =====
-- The policy on its way from the host into the container.
use aimclaw.Base.{
  ◌>>=◌, ℕ, String, str_eq, str_eq_iff, str_eq_refl, ◌≡◌, ◌⊎◌, refl, ◌∙◌, Bool, true, false, Option,
  none, some, List, [], ◌∷◌, if◌then◌else◌, arith, inl, inr,
}
use aimclaw.Json.{
  Json, null, bool, num, str, arr, obj, Items, Fields, end, field, Content, raw, json, property,
  with_property, get_field, set_field, texts_of, entries,
}
use aimclaw.Permissions.{Central}
use aimclaw.Router.{InboundEvent, stamp_platform_message_id}
use aimclaw.Runner.Policy.{Role, ExecutionPolicy, policy_of, read_policy, all_texts}
use aimclaw.SlackAccess.{
  AllowlistFile, is_administrator_of, array_of, object_of, text_or_null, authorization, enroll,
  stamped, enrolled, for_member, policy_on, apply_request_policy,
}

get_field-set_field :
    (k : String) (v : Json) (fs : Fields) → get_field k (set_field k v fs) ≡ some v
unfolding get_field set_field
get_field-set_field k v end = rw (str_eq_refl k) refl
get_field-set_field k v (field j w fs) = ground (arith, get_field-set_field k v fs)

texts_of-array_of : (ts : List String) → texts_of (array_of ts) ≡ some ts
unfolding texts_of
texts_of-array_of [] = refl
texts_of-array_of (t ∷ ts) = rw (texts_of-array_of ts) refl

all_texts-cons :
    (name : String) (tools : List String) (rest : Fields)
    → all_texts (entries (obj (field name (arr (array_of tools)) rest)))
      ≡ (all_texts (entries (obj rest)) >>= λ others. some ((name, tools) ∷ others))
unfolding all_texts entries
all_texts-cons name tools rest = rw (texts_of-array_of tools) refl

all_texts-nil : all_texts (entries (obj end)) ≡ some []
unfolding all_texts entries
all_texts-nil = refl

all_texts-object_of :
    (skills : List (String × List String))
    → all_texts (entries (obj (object_of skills))) ≡ some skills
all_texts-object_of [] = all_texts-nil
all_texts-object_of ((name, tools) ∷ rest) =
    all_texts-cons name tools (object_of rest) ∙ rw (all_texts-object_of rest) refl

-- What the container reads from what the host wrote
abbrev pub carried : Option String → Bool → AllowlistFile → ExecutionPolicy
carried user administrator allowlist = record {
  user_id = user;
  role = if administrator then Role.administrator else Role.member;
  allowed_tools = allowlist.tools;
  skill_tools = allowlist.skills;
}

some_policy :
    (user : Option String) (role : Role) (tools : List String)
    (skills : List (String × List String))
    → some (policy_of (some (text_or_null user)) role tools skills)
      ≡ some (record { user_id = user; role = role; allowed_tools = tools; skill_tools = skills })
some_policy none role tools skills = refl
some_policy (some u) role tools skills = refl

module _ (user : Option String) (allowlist : AllowlistFile) (fs : Fields) where
  read_policy-authorization :
      (b : Bool)
      → get_field "_nanoclawAuthorization" fs ≡ some (authorization user b allowlist)
      → read_policy (json (obj fs)) ≡ some (carried user b allowlist)
  unfolding read_policy property
  read_policy-authorization true e =
      rw (e, texts_of-array_of allowlist.tools, all_texts-object_of allowlist.skills)
        (some_policy user Role.administrator allowlist.tools allowlist.skills)
  read_policy-authorization false e =
      rw (e, texts_of-array_of allowlist.tools, all_texts-object_of allowlist.skills)
        (some_policy user Role.member allowlist.tools allowlist.skills)

get_field-set_other :
    (k j : String) (v : Json) (fs : Fields)
    → str_eq j k ≡ false
    → get_field k (set_field j v fs) ≡ get_field k fs
unfolding get_field set_field
get_field-set_other k j v end e = rw e refl
get_field-set_other k j v (field i w fs) e =
    ground (arith, get_field-set_other k j v fs e, str_eq_iff i j, str_eq_iff i k, str_eq_iff j k)

-- No policy, or the one for the user
abbrev Carries : Option String → Bool → AllowlistFile → Content → Type 0
Carries user b allowlist content =
    (read_policy content ≡ none) ⊎ (read_policy content ≡ some (carried user b allowlist))

read_policy-arr : (xs : Items) → read_policy (json (arr xs)) ≡ none
unfolding read_policy property
read_policy-arr xs = refl

read_policy-raw : (text : String) → read_policy (raw text) ≡ none
unfolding read_policy
read_policy-raw text = refl

-- The host's own mark on the content leaves the policy.
stamped-Carries :
    (user : Option String) (b : Bool) (allowlist : AllowlistFile) (content : Json) (c : Content)
    (id : String)
    → stamped user b allowlist content ≡ some c
    → Carries user b allowlist (stamp_platform_message_id c id)
unfolding with_property stamp_platform_message_id
stamped-Carries user b allowlist (obj fs) c id e =
    let same : json (obj (set_field "_nanoclawAuthorization" (authorization user b allowlist) fs))
        ≡ c =
      ground arith in
    rw (← same) (
      inr (
        read_policy-authorization user allowlist _ b (
          get_field-set_other "_nanoclawAuthorization" "_nanoclawPlatformMessageId" (str id) _ refl
          ∙ get_field-set_field "_nanoclawAuthorization" (authorization user b allowlist) fs)))
stamped-Carries user b allowlist (arr xs) c id e =
    let same : json (arr xs) ≡ c = ground arith in rw (← same) (inl (read_policy-arr xs))
stamped-Carries user b allowlist null c id e = cc
stamped-Carries user b allowlist (bool x) c id e = cc
stamped-Carries user b allowlist (num x) c id e = cc
stamped-Carries user b allowlist (str x) c id e = cc

-- The list of the host, where the request of a member needs it
abbrev pub IsConfined : Option String → Option AllowlistFile → Content → Type 0
IsConfined user allowlist content =
    (read_policy content ≡ none)
    ⊎ ((file : AllowlistFile) × (allowlist ≡ some file)
        × (read_policy content ≡ some (carried user false file)))

enrolled-IsConfined :
    (user : Option String) (file : AllowlistFile) (id : String) (content : Json) (db : Central)
    (o : Option Central) (c : Content)
    → (enrolled user file content db o).0 ≡ some c
    → IsConfined user (some file) (stamp_platform_message_id c id)
enrolled-IsConfined user file id content db none c e = cc
enrolled-IsConfined user file id content db (some db') c e =
    elim (stamped-Carries user false file content c id e) [
      | inl nothing ↦ inl nothing
      | inr reads ↦ inr (file, refl, reads)
    ]

for_member-IsConfined :
    (now : ℕ) (allowlist : Option AllowlistFile) (event : InboundEvent) (user : Option String)
    (group id : String) (content : Json) (db : Central) (c : Content)
    → (for_member now allowlist event user group content db).0 ≡ some c
    → IsConfined user allowlist (stamp_platform_message_id c id)
unfolding for_member
for_member-IsConfined now none event user group id content db c e = cc
for_member-IsConfined now (some file) event user group id content db c e =
    enrolled-IsConfined user file id content db (enroll now event user group content db) c e

module _ (now : ℕ) (allowlist : Option AllowlistFile) (event : InboundEvent) (user : Option String)
    (group id : String) (db : Central) (nobody : is_administrator_of db user ≡ false) where
  policy_json :
      (content : Json)
      → (for_member now allowlist event user group content db).0
        ≡ (policy_on now allowlist event user group db (json content)).0
  policy_json content = rw nobody refl

  policy_on-IsConfined :
      (content c : Content)
      → (policy_on now allowlist event user group db content).0 ≡ some c
      → IsConfined user allowlist (stamp_platform_message_id c id)
  unfolding stamp_platform_message_id
  policy_on-IsConfined (raw s) c e =
      let same : raw s ≡ c = ground arith in rw (← same) (inl (read_policy-raw s))
  policy_on-IsConfined (json content) c e =
      for_member-IsConfined now allowlist event user group id content db c (policy_json content ∙ e)

  -- What the host lets a user who is no administrator carry on, whatever the message claimed before
  pub apply_request_policy-IsConfined :
      (c : Content)
      → (apply_request_policy now allowlist event user group db).0 ≡ some c
      → IsConfined user allowlist (stamp_platform_message_id c id)
  unfolding apply_request_policy
  apply_request_policy-IsConfined c e = policy_on-IsConfined event.content c e
