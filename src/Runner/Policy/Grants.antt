-- ===== src/Runner/Policy/Grants.antt =====
-- What a member's request may come to use.
use mathlib.Core.List
use mathlib.Core.List.{Memᴰ}
use mathlib.Core.Path.{subst}
use aimclaw.Base.{
  String, str_eq, str_eq_iff, ◌≡◌, ◌⊎◌, refl, sym, ap, ◌∙◌, Bool, true, false, Option, none, some,
  List, [], ◌∷◌, All, All-append, any, any-Mem, any-append, arith, Bool-cases, inl, inr,
}
use aimclaw.Json.{Fields}
use aimclaw.Runner.Policy.{
  ExecutionPolicy, Enforcement, matches, tools_of, is_inherited, is_listed, is_member_role, select,
  skill_name, authorize_tool,
}

-- A pattern of a skill that lists the Skill tool
abbrev pub IsSkillTool : ExecutionPolicy → String → Type 0
IsSkillTool policy pattern =
    (name : String) × (tools : List String) × Memᴰ (name, tools) policy.skill_tools
    × (is_listed "Skill" tools ≡ true)
    × Memᴰ pattern tools

-- The tool is allowed by name, or for a skill, or it is the one that starts a skill.
abbrev pub IsPermitted : ExecutionPolicy → String → Type 0
IsPermitted policy tool =
    (tool ≡ "Skill")
    ⊎ ((pattern : String) × (matches pattern tool ≡ true)
        × (Memᴰ pattern policy.allowed_tools ⊎ IsSkillTool policy pattern))

-- The calls of one request, one after the other
pub data Calls (lower : String → String) : Enforcement → Enforcement → Type 0 where
  done : {e : Enforcement} → Calls lower e e
  call :
      {e e' e'' : Enforcement} (tool : String) (input : Fields) (allowed : Bool)
      → Calls lower e e'
      → authorize_tool lower tool input e' ≡ some (allowed, e'')
      → Calls lower e e''

-- What the calls keep: the policy, and that each selected pattern belongs to one of its skills
abbrev IsBacked : ExecutionPolicy → Enforcement → Type 0
IsBacked policy e = (e.current ≡ policy) × All (IsSkillTool policy) e.selected

tools_of-Mem :
    (skill : String) (skills : List (String × List String)) (tools : List String)
    → tools_of skill skills ≡ some tools
    → (name : String) × Memᴰ (name, tools) skills
tools_of-Mem skill [] tools e = cc
tools_of-Mem skill ((name, ts) ∷ skills) tools e = elim (Bool-cases (str_eq name skill)) [
  | inl h ↦
      let same : ts ≡ tools = ground arith in (name, Memᴰ.head (ap (λ t. (name, t)) (sym same)))
  | inr h ↦ let (n, m) = tools_of-Mem skill skills tools (ground arith) in (n, Memᴰ.tail m)
]

All-Mem : {A : Type 0} (P : A → Type 0) (xs : List A) → ((x : A) → Memᴰ x xs → P x) → All P xs
All-Mem P [] f = tt
All-Mem P (x ∷ xs) f = (f x (Memᴰ.head refl), All-Mem P xs (λ y m. f y (Memᴰ.tail m)))

Mem-All : {A : Type 0} (P : A → Type 0) (x : A) (xs : List A) → Memᴰ x xs → All P xs → P x
Mem-All P x [] m h = elim m [ ]
Mem-All P x (y ∷ xs) (Memᴰ.head e) (p, h) = subst P (sym e) p
Mem-All P x (y ∷ xs) (Memᴰ.tail m) (p, h) = Mem-All P x xs m h

module _ (lower : String → String) (tool : String) (input : Fields) (e : Enforcement)
    (member : is_member_role e.current.role ≡ true) where
  authorize_tool-skill :
      str_eq tool "Skill" ≡ true
      → authorize_tool lower tool input e
        ≡ select
            (tools_of (skill_name lower input) e.current.skill_tools)
            (skill_name lower input)
            e
  unfolding authorize_tool
  authorize_tool-skill s = rw (member, s) refl

  authorize_tool-other :
      str_eq tool "Skill" ≡ false
      → authorize_tool lower tool input e
        ≡ some (any (λ p. matches p tool) (List.◌++◌ e.current.allowed_tools e.selected), e)
  unfolding authorize_tool
  authorize_tool-other s = rw (member, s) refl

module _ (lower : String → String) (policy : ExecutionPolicy)
    (member : is_member_role policy.role ≡ true) where
  select-IsBacked :
      (tools : Option (List String)) (skill : String) (e e' : Enforcement) (ok : Bool)
      → tools_of skill policy.skill_tools ≡ tools
      → IsBacked policy e
      → select tools skill e ≡ some (ok, e')
      → IsBacked policy e'
  select-IsBacked none skill e e' ok t b h = elim (Bool-cases (is_inherited skill)) [
    | inl i ↦ cc (h, i)
    | inr i ↦ let same : e ≡ e' = ground arith in subst (IsBacked policy) same b
  ]
  select-IsBacked (some tools) skill e e' ok t (c, b) h =
      elim (Bool-cases (is_listed "Skill" tools)) [
        | inl i ↦
            let (name, m) = tools_of-Mem skill policy.skill_tools tools t in
            let same : record e { selected = List.◌++◌ e.selected tools } ≡ e' = ground arith in
            subst (IsBacked policy) same (
              c,
              All-append (IsSkillTool policy) e.selected tools b
                  (All-Mem (IsSkillTool policy) tools (λ x mem. (name, tools, m, i, mem))),
            )
        | inr i ↦ let same : e ≡ e' = ground arith in subst (IsBacked policy) same (c, b)
      ]

  authorize_tool-IsBacked :
      (tool : String) (input : Fields) (e e' : Enforcement) (ok : Bool)
      → IsBacked policy e
      → authorize_tool lower tool input e ≡ some (ok, e')
      → IsBacked policy e'
  authorize_tool-IsBacked tool input e e' ok (c, b) h =
      let m = ap (λ (q : ExecutionPolicy). is_member_role q.role) c ∙ member in
      elim (Bool-cases (str_eq tool "Skill")) [
        | inl s ↦
            select-IsBacked (tools_of (skill_name lower input) e.current.skill_tools)
              (skill_name lower input) e e' ok
              (ap (λ (q : ExecutionPolicy). tools_of (skill_name lower input) q.skill_tools)
                (sym c))
              (c, b) (sym (authorize_tool-skill lower tool input e m s) ∙ h)
        | inr s ↦
            let same : e ≡ e' = cc (authorize_tool-other lower tool input e m s, h) in
            subst (IsBacked policy) same (c, b)
      ]

  Calls-IsBacked : {e e' : Enforcement} → Calls lower e e' → IsBacked policy e → IsBacked policy e'
  Calls-IsBacked done b = b
  Calls-IsBacked (call tool input ok calls h) b =
      authorize_tool-IsBacked tool input _ _ ok (Calls-IsBacked calls b) h

  allowed-IsPermitted :
      (tool : String) (input : Fields) (e e' : Enforcement)
      → IsBacked policy e
      → authorize_tool lower tool input e ≡ some (true, e')
      → IsPermitted policy tool
  allowed-IsPermitted tool input e e' (c, b) h = elim (Bool-cases (str_eq tool "Skill")) [
    | inl s ↦ inl ((str_eq_iff tool "Skill").0 s)
    | inr s ↦
        let m = ap (λ (q : ExecutionPolicy). is_member_role q.role) c ∙ member in
        let p = λ (x : String). matches x tool in
        let hit : any p (List.◌++◌ e.current.allowed_tools e.selected) ≡ true =
          cc (authorize_tool-other lower tool input e m s, h) in
        elim (Bool-cases (any p e.current.allowed_tools)) [
          | inl a ↦
              let (x, m, t) = any-Mem p e.current.allowed_tools a in
              inr (x, t, inl (subst (λ (q : ExecutionPolicy). Memᴰ x q.allowed_tools) c m))
          | inr a ↦
              let (x, m, t) =
                any-Mem p e.selected
                  (ground (arith, any-append p e.current.allowed_tools e.selected)) in
              inr (x, t, inr (Mem-All (IsSkillTool policy) x e.selected m b))
        ]
  ]

-- Whatever calls a member's request makes, one that is allowed is for a tool that fits a pattern of the policy or
-- of one of its skills that list the Skill tool, or it starts a skill.
pub Calls-IsPermitted :
    (lower : String → String) (start e e' : Enforcement) (tool : String) (input : Fields)
    → is_member_role start.current.role ≡ true
    → start.selected ≡ []
    → Calls lower start e
    → authorize_tool lower tool input e ≡ some (true, e')
    → IsPermitted start.current tool
Calls-IsPermitted lower start e e' tool input member empty calls h =
    allowed-IsPermitted lower start.current member tool input e e'
      (Calls-IsBacked lower start.current member calls
        (refl, subst (All (IsSkillTool start.current)) (sym empty) tt))
      h
