-- ===== src/SlackAccess/Confined.antt =====
-- From the chat to the tool: the requests of users who are no administrators.
use aimclaw.Base.{ℕ, String, ◌≡◌, ◌⊎◌, refl, sym, ap, true, false, Option, some, List, [], inl, inr}
use aimclaw.Json.{Fields, Content}
use aimclaw.Permissions.{Central}
use aimclaw.Router.{InboundEvent, stamp_platform_message_id}
use mathlib.Core.Path.{subst}
use aimclaw.Runner.Policy.Grants.{Calls, IsPermitted, Calls-IsPermitted}
use aimclaw.Runner.Policy.{
  AuthorizationMessage, Enforcement, member_policy, is_member_role, is_trusted, policy_for,
  deciding, set_execution_policy_for_messages, authorize_tool, ExecutionPolicy,
}
use aimclaw.SlackAccess.{AllowlistFile, is_administrator_of, apply_request_policy}
use aimclaw.SlackAccess.Carried.{carried, IsConfined, apply_request_policy-IsConfined}

abbrev pub PermittedFor : Option String → Option AllowlistFile → String → Type 0
PermittedFor user allowlist tool =
    (tool ≡ "Skill")
    ⊎ ((file : AllowlistFile) × (allowlist ≡ some file)
        × IsPermitted (carried user false file) tool)

only_skill : (tool : String) → IsPermitted member_policy tool → tool ≡ "Skill"
only_skill tool (inl e) = e
only_skill tool (inr (p, m, inl h)) = elim h [ ]
only_skill tool (inr (p, m, inr (name, tools, h, s, k))) = elim h [ ]

module _ (user : Option String) (allowlist : Option AllowlistFile) (lower : String → String)
    (m : AuthorizationMessage) (untrusted : is_trusted m ≡ false)
    (confined : IsConfined user allowlist m.content) where
  policy_for-cases :
      (policy_for (some m) ≡ member_policy)
      ⊎ ((file : AllowlistFile) × (allowlist ≡ some file)
          × (policy_for (some m) ≡ carried user false file))
  unfolding policy_for
  policy_for-cases = elim confined [
    | inl e ↦ inl (rw (e, untrusted) refl)
    | inr (file, f, e) ↦ inr (file, f, rw e refl)
  ]

  start : Enforcement
  start = record { current = policy_for (some m); selected = [] }

  PermittedFor-Calls :
      (e e' : Enforcement) (tool : String) (input : Fields)
      → Calls lower start e
      → authorize_tool lower tool input e ≡ some (true, e')
      → PermittedFor user allowlist tool
  unfolding start
  PermittedFor-Calls e e' tool input calls h = elim policy_for-cases [
    | inl p ↦ inl (
        only_skill tool (
          subst (λ (q : ExecutionPolicy). IsPermitted q tool) p
            (Calls-IsPermitted lower start e e' tool input
              (ap (λ (q : ExecutionPolicy). is_member_role q.role) p) refl calls h)))
    | inr (file, f, p) ↦ inr (
      file,
      f,
      subst (λ (q : ExecutionPolicy). IsPermitted q tool) p
          (Calls-IsPermitted lower start e e' tool input
            (ap (λ (q : ExecutionPolicy). is_member_role q.role) p) refl calls h),
    )
  ]

-- From the chat to the tool: when the message that decides over a request is one that the host has stamped for a
-- user who is no administrator, then whatever it claimed of itself and whatever calls the request makes, the
-- container allows only the start of a skill, and tools that the host's list names or that it names for a skill.
pub request-PermittedFor :
    (now : ℕ) (allowlist : Option AllowlistFile) (event : InboundEvent) (user : Option String)
    (group id : String) (db : Central) (m : AuthorizationMessage) (ms : List AuthorizationMessage)
    (c : Content) (lower : String → String) (e e' : Enforcement) (tool : String) (input : Fields)
    → is_administrator_of db user ≡ false
    → (apply_request_policy now allowlist event user group db).0 ≡ some c
    → m.content ≡ stamp_platform_message_id c id
    → is_trusted m ≡ false
    → deciding ms ≡ some m
    → Calls lower ((set_execution_policy_for_messages ms).0) e
    → authorize_tool lower tool input e ≡ some (true, e')
    → PermittedFor user allowlist tool
unfolding set_execution_policy_for_messages start
request-PermittedFor now allowlist event user group id db m ms c lower e e' tool input n a s u d
      calls h =
    let confined = apply_request_policy-IsConfined now allowlist event user group id db n c a in
    PermittedFor-Calls user allowlist lower m u (subst (IsConfined user allowlist) (sym s) confined)
      e e' tool input
      (subst (λ o. Calls lower (record { current = policy_for o; selected = [] }) e) d calls) h
