-- ===== src/MountSecurity/Patterns.antt =====
-- The blocked patterns.
use mathlib.Core.Path.{subst}
use aimclaw.Base.Lists.{unique_onto}
use aimclaw.Base.{
  String, str_eq, str_eq_iff, ◌≡◌, refl, sym, true, false, ◌||◌, Option, none, some, List, [], ◌∷◌,
  any, find-All, All, All-weaken, arith, Bool-cases, inl, inr, bind-some,
}
use aimclaw.Text.{includes}
use aimclaw.Text.Paths.{split_on}
use aimclaw.Json.{Content, property}
use aimclaw.MountSecurity.{
  AllowedRoot, MountAllowlist, AllowlistFile, default_blocked_patterns, patterns_of, items_or_none,
  normalize_roots, merged, allowlist_of, read_allowlist, parse_file, matches_blocked_pattern,
}
use aimclaw.MountSecurity.Cache.{fresh}

abbrev pub IsFreeOf : String → String → Type 0
IsFreeOf path pattern = includes path pattern ≡ false

module _ (x : String) (seen xs : List String) where
  unique_onto-again :
      any (λ s. str_eq s x) seen ≡ true → unique_onto seen (x ∷ xs) ≡ unique_onto seen xs
  unfolding unique_onto
  unique_onto-again e = rw e refl

  unique_onto-new :
      any (λ s. str_eq s x) seen ≡ false → unique_onto seen (x ∷ xs) ≡ x ∷ unique_onto (x ∷ seen) xs
  unfolding unique_onto
  unique_onto-new e = rw e refl

module _ (P : String → Type 0) where
  any-All : (x : String) (xs : List String) → any (λ s. str_eq s x) xs ≡ true → All P xs → P x
  any-All x [] e h = cc
  any-All x (s ∷ xs) e (p, h) = elim (Bool-cases (str_eq s x)) [
    | inl d ↦ rw (sym ((str_eq_iff s x).0 d)) p
    | inr d ↦ any-All x xs (ground arith) h
  ]

  All-unique_onto : (seen xs : List String) → All P (unique_onto seen xs) → All P seen → All P xs
  unfolding unique_onto
  All-unique_onto seen [] h k = tt
  All-unique_onto seen (x ∷ xs) h k = elim (Bool-cases (any (λ s. str_eq s x) seen)) [
    | inl e ↦ (
      any-All x seen e k,
      All-unique_onto seen xs (subst (All P) (unique_onto-again x seen xs e) h) k,
    )
    | inr e ↦
        let (p, h') = subst (All P) (unique_onto-new x seen xs e) h in
        (p, All-unique_onto (x ∷ seen) xs h' (p, k))
  ]

  All-merged : (xs ys : List String) → All P (merged xs ys) → All P xs
  All-merged [] ys h = tt
  All-merged (x ∷ xs) ys (p, h) = (p, All-merged xs ys h)

pub All-IsFreeOf :
    (path : String) (patterns : List String)
    → matches_blocked_pattern path patterns ≡ none
    → All (IsFreeOf path) patterns
unfolding matches_blocked_pattern
All-IsFreeOf path patterns e =
    All-weaken
      (λ pattern.
        (any (λ part. str_eq part pattern || includes part pattern) (split_on "/" path)
          || includes path pattern)
        ≡ false)
      (IsFreeOf path) patterns (λ pattern h. ground arith) (find-All _ patterns e)

IsRead : MountAllowlist → Type 0
IsRead allowlist =
    (roots : List AllowedRoot) × (patterns : List String) × (allowlist
      ≡ allowlist_of roots patterns)

read_allowlist-IsRead :
    (content : Content) (allowlist : MountAllowlist)
    → read_allowlist content ≡ some allowlist
    → IsRead allowlist
unfolding read_allowlist IsRead
read_allowlist-IsRead (Content.raw s) allowlist e = cc
read_allowlist-IsRead (Content.json j) allowlist e =
    let (allowed, d, e1) = bind-some (property "allowedRoots" j) _ allowlist e in
    let (roots, d, e2) = bind-some (items_or_none allowed) _ allowlist e1 in
    let (blocked, d, e3) = bind-some (property "blockedPatterns" j) _ allowlist e2 in
    let (patterns, d, e4) = bind-some (items_or_none blocked) _ allowlist e3 in
    let (allowed_roots, d, e5) = bind-some (normalize_roots roots) _ allowlist e4 in
    (allowed_roots, patterns_of patterns, cc)

-- What the file adds to the default patterns takes none of them away.
blocks_defaults :
    (path : String) (content : Content) (allowlist : MountAllowlist)
    → read_allowlist content ≡ some allowlist
    → All (IsFreeOf path) allowlist.blocked_patterns
    → All (IsFreeOf path) default_blocked_patterns
unfolding IsRead allowlist_of
blocks_defaults path content allowlist e h =
    let (roots, patterns, d) = read_allowlist-IsRead content allowlist e in
    All-merged (IsFreeOf path) default_blocked_patterns patterns (
      All-unique_onto (IsFreeOf path) [] (merged default_blocked_patterns patterns)
        (subst (λ a. All (IsFreeOf path) a.blocked_patterns) d h) tt)

-- Nor does the allowlist on disk.
pub fresh-blocks_defaults :
    (file : Option AllowlistFile) (path : String) (allowlist : MountAllowlist)
    → fresh file ≡ some allowlist
    → All (IsFreeOf path) allowlist.blocked_patterns
    → All (IsFreeOf path) default_blocked_patterns
unfolding parse_file
fresh-blocks_defaults none path allowlist e h = cc
fresh-blocks_defaults (some f) path allowlist e h =
    let (content, d, r) = bind-some f.content read_allowlist allowlist e in
    blocks_defaults path content allowlist r h
