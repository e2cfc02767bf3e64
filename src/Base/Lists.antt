-- ===== src/Base/Lists.antt =====
-- Lists over the native numbers, and tables: lists of rows that statements scan.
use Prim.Native.Nat.{ℕ, suc, ◌+◌}
use Prim.Native.String.{String}
use text.Mathlib.Text.{◌==◌ as str_eq}
use mathlib.Core.Path.{◌≡◌, refl}
use mathlib.Core.Bool.{Bool, true, false, ◌||◌}
use mathlib.Core.Option.{Option, none, some}
use mathlib.Core.Logic.{inl, inr}
use mathlib.Core.List.{List, [], ◌∷◌, ◌++◌, Memᴰ}
use native.Mathlib.Omega.{arith}
use aimclaw.Base.Tests.{if◌then◌else◌, leb, Bool-cases}

module _ {ℓ} {A : Type ℓ} where
  abbrev pub length : List A → ℕ
  length [] = 0
  length (x ∷ xs) = suc (length xs)

  pub length-append : (xs ys : List A) → length (xs ++ ys) ≡ length xs + length ys
  length-append [] ys = omega arith
  length-append (x ∷ xs) ys = omega (arith, length-append xs ys)

  abbrev pub any : (A → Bool) → List A → Bool
  any p [] = false
  any p (x ∷ xs) = p x || any p xs

  -- SELECT … WHERE p
  abbrev pub filter : (A → Bool) → List A → List A
  filter p [] = []
  filter p (x ∷ xs) = let rest = filter p xs in if p x then x ∷ rest else rest

  abbrev pub count : (A → Bool) → List A → ℕ
  count p [] = 0
  count p (x ∷ xs) = let rest = count p xs in if p x then suc rest else rest

  -- SELECT … WHERE p LIMIT 1
  abbrev pub find : (A → Bool) → List A → Option A
  find p [] = none
  find p (x ∷ xs) = let rest = find p xs in if p x then some x else rest

  -- UPDATE … SET f WHERE p
  abbrev pub update_where : (A → Bool) → (A → A) → List A → List A
  update_where p f [] = []
  update_where p f (x ∷ xs) = (if p x then f x else x) ∷ update_where p f xs

module _ {ℓ κ} {A : Type ℓ} (P : A → Type κ) where
  abbrev pub All : List A → Type κ
  All [] = Unit
  All (x ∷ xs) = P x × All xs

  pub All-append : (xs ys : List A) → All xs → All ys → All (xs ++ ys)
  All-append [] ys h k = k
  All-append (x ∷ xs) ys (p, h) k = (p, All-append xs ys h k)

module _ {ℓ} {A : Type ℓ} (p : A → Bool) where
  pub find-holds : (xs : List A) (a : A) → find p xs ≡ some a → p a ≡ true
  find-holds [] a e = cc
  find-holds (x ∷ xs) a e = ground (arith, find-holds xs a)

  pub find-Mem : (xs : List A) (a : A) → find p xs ≡ some a → Memᴰ a xs
  find-Mem [] a e = cc
  find-Mem (x ∷ xs) a e = elim (Bool-cases (p x)) [
    | inl t ↦ Memᴰ.head (ground arith)
    | inr f ↦ Memᴰ.tail (find-Mem xs a (ground arith))
  ]

  pub find-All : (xs : List A) → find p xs ≡ none → All (λ x. p x ≡ false) xs
  find-All [] e = tt
  find-All (x ∷ xs) e = (ground arith, find-All xs (ground arith))

module _ {ℓ κ μ} {A : Type ℓ} (P : A → Type κ) (Q : A → Type μ) where
  pub All-weaken : (xs : List A) → ((x : A) → P x → Q x) → All P xs → All Q xs
  All-weaken [] f h = tt
  All-weaken (x ∷ xs) f (p, h) = (f x p, All-weaken xs f h)

module _ {ℓ} {A : Type ℓ} (p : A → Bool) where
  pub any-Mem : (xs : List A) → any p xs ≡ true → (x : A) × Memᴰ x xs × (p x ≡ true)
  any-Mem [] e = cc
  any-Mem (x ∷ xs) e = elim (Bool-cases (p x)) [
    | inl t ↦ (x, Memᴰ.head refl, t)
    | inr f ↦ let (y, m, t) = any-Mem xs (ground arith) in (y, Memᴰ.tail m, t)
  ]

  pub Mem-any : (xs : List A) (a : A) → Memᴰ a xs → p a ≡ true → any p xs ≡ true
  Mem-any [] a m t = elim m [ ]
  Mem-any (x ∷ xs) a (Memᴰ.head e) t = rw (← e, t) refl
  Mem-any (x ∷ xs) a (Memᴰ.tail m) t = ground (arith, Mem-any xs a m t)

  pub any-append : (xs ys : List A) → any p (xs ++ ys) ≡ (any p xs || any p ys)
  any-append [] ys = refl
  any-append (x ∷ xs) ys = ground (arith, any-append xs ys)

-- `[...new Set(xs)]`: the first of equal texts stays.
unfoldable pub unique_onto : List String → List String → List String
unique_onto seen [] = []
unique_onto seen (x ∷ xs) =
    let skipped = unique_onto seen xs in
    let kept = unique_onto (x ∷ seen) xs in if any (λ s. str_eq s x) seen then skipped else x ∷ kept

module _ {ℓ} {A : Type ℓ} where
  -- The last elements, at most as many as the bound
  abbrev pub latest : ℕ → List A → List A
  latest n [] = []
  latest n (x ∷ xs) = let rest = latest n xs in if leb (suc (length xs)) n then x ∷ xs else rest
