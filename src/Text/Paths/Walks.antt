-- ===== src/Text/Paths/Walks.antt =====
-- Paths that lie below one another, as `path.relative` and the walk over a path's names tell it.
use Prim.Native.Char.{Char, code}
use Prim.Native.String.{◌∷◌ as cons, ◌++◌}
use mathlib.Core.List
use text.Mathlib.TextLemmas.{nil-append, cons-append, append_assoc}
use aimclaw.Base.{
  String, str_eq, str_eq_iff, ◌≡◌, ◌⊎◌, inl, inr, refl, sym, ap, ◌∙◌, Bool, true, false, ◌||◌, List,
  [], ◌∷◌, All, ◌==◌, arith, Bool-cases,
}
use aimclaw.Text.{begins_with, includes}
use aimclaw.Text.Paths.{
  split_on, onto_head, enter, walk, reverse_onto, slashed, steps, up_and_down, route,
}

-- The second path has the names of the first, then more.
abbrev pub IsBelow : List String → List String → Type 0
IsBelow [] ts = Unit
IsBelow (f ∷ fs) [] = ⊥
IsBelow (f ∷ fs) (t ∷ ts) = (f ≡ t) × IsBelow fs ts

IsBelow-refl : (xs : List String) → IsBelow xs xs
IsBelow-refl [] = tt
IsBelow-refl (x ∷ xs) = (refl, IsBelow-refl xs)

IsBelow-trans : (xs ys zs : List String) → IsBelow xs ys → IsBelow ys zs → IsBelow xs zs
IsBelow-trans [] ys zs h k = tt
IsBelow-trans (x ∷ xs) [] zs h k = elim h [ ]
IsBelow-trans (x ∷ xs) (y ∷ ys) [] h k = elim k [ ]
IsBelow-trans (x ∷ xs) (y ∷ ys) (z ∷ zs) (e, h) (d, k) = (e ∙ d, IsBelow-trans xs ys zs h k)

begins_with-append : (t s : String) → begins_with t (t ++ s) ≡ true
unfolding begins_with
begins_with-append String.[] s = refl
begins_with-append (cons c t) s = rw cons-append (ground (arith, begins_with-append t s))

climbs :
    (f : String) (fs ts : List String) → begins_with ".." (slashed (up_and_down (f ∷ fs) ts)) ≡ true
unfolding begins_with slashed up_and_down
climbs f [] [] = refl
climbs f [] (t ∷ ts) = begins_with-append ".." ("/" ++ slashed (t ∷ ts))
climbs f (g ∷ fs) ts = begins_with-append ".." ("/" ++ slashed (up_and_down (g ∷ fs) ts))

opens :
    {v w : List String}
    → v ≡ w
    → begins_with ".." (slashed v) ≡ false
    → begins_with ".." (slashed w) ≡ false
opens e h = sym (ap (λ v. begins_with ".." (slashed v)) e) ∙ h

route-same :
    (f t : String) (fs ts : List String) → str_eq f t ≡ true → route (f ∷ fs) (t ∷ ts) ≡ route fs ts
unfolding route
route-same f t fs ts e = rw e refl

route-differs :
    (f t : String) (fs ts : List String)
    → str_eq f t ≡ false
    → route (f ∷ fs) (t ∷ ts) ≡ up_and_down (f ∷ fs) (t ∷ ts)
unfolding route
route-differs f t fs ts e = rw e refl

-- A way that does not begin with two dots goes down only.
pub route-IsBelow :
    (fs ts : List String) → begins_with ".." (slashed (route fs ts)) ≡ false → IsBelow fs ts
unfolding route
route-IsBelow [] ts h = tt
route-IsBelow (f ∷ fs) [] h = cc (climbs f fs [], h)
route-IsBelow (f ∷ fs) (t ∷ ts) h = elim (Bool-cases (str_eq f t)) [
  | inl e ↦ ((str_eq_iff f t).0 e, route-IsBelow fs ts (opens (route-same f t fs ts e) h))
  | inr e ↦ cc (climbs f fs (t ∷ ts), opens (route-differs f t fs ts e) h)
]

begins_with_refl : (s : String) → begins_with s s ≡ true
unfolding begins_with
begins_with_refl String.[] = refl
begins_with_refl (cons c s) = ground (arith, begins_with_refl s)

begins_with-includes : (s t : String) → begins_with t s ≡ true → includes s t ≡ true
unfolding includes
begins_with-includes String.[] t h = h
begins_with-includes (cons c s) t h = rw h refl

-- The first piece opens the text, and the others are in it.
abbrev ArePieces : String → List String → Type 0
ArePieces s [] = Unit
ArePieces s (w ∷ ws) = (begins_with w s ≡ true) × All (λ v. includes s v ≡ true) ws

All-includes-cons :
    (c : Char) (s : String) (ws : List String)
    → All (λ v. includes s v ≡ true) ws
    → All (λ v. includes (cons c s) v ≡ true) ws
unfolding includes
All-includes-cons c s [] h = tt
All-includes-cons c s (w ∷ ws) (p, h) = (ground arith, All-includes-cons c s ws h)

-- With `includes` in place of `begins_with` for the first piece too
ArePieces-All : (s : String) (ws : List String) → ArePieces s ws → All (λ v. includes s v ≡ true) ws
ArePieces-All s [] h = tt
ArePieces-All s (w ∷ ws) (p, h) = (begins_with-includes s w p, h)

ArePieces-onto_head :
    (c : Char) (s : String) (ws : List String)
    → ArePieces s ws
    → ArePieces (cons c s) (onto_head c ws)
unfolding begins_with
ArePieces-onto_head c s [] h = (ground arith, tt)
ArePieces-onto_head c s (w ∷ ws) (p, h) = (ground arith, All-includes-cons c s ws h)

split_on-ArePieces : (d : Char) (s : String) → ArePieces s (split_on d s)
unfolding split_on begins_with
split_on-ArePieces d String.[] = (refl, tt)
split_on-ArePieces d (cons c s) = elim (Bool-cases (code c == code d)) [
  | inl e ↦ rw e (
    refl,
    All-includes-cons c s (split_on d s) (ArePieces-All s (split_on d s) (split_on-ArePieces d s)),
  )
  | inr e ↦ rw e (ArePieces-onto_head c s (split_on d s) (split_on-ArePieces d s))
]

-- Each piece of a text is in it.
pub split_on-All : (d : Char) (s : String) → All (λ v. includes s v ≡ true) (split_on d s)
split_on-All d s = ArePieces-All s (split_on d s) (split_on-ArePieces d s)

abbrev IsNotUp : String → Type 0
IsNotUp w = str_eq w ".." ≡ false

has_no_up :
    (s : String) (ws : List String)
    → includes s ".." ≡ false
    → All (λ v. includes s v ≡ true) ws
    → All IsNotUp ws
has_no_up s [] h a = tt
has_no_up s (w ∷ ws) h (p, a) = (
  elim (Bool-cases (str_eq w "..")) [ inl e ↦ cc (h, p, (str_eq_iff w "..").0 e) | inr e ↦ e ],
  has_no_up s ws h a,
)

-- Down from the same names
IsBelow-reverse_onto :
    (seen xs ys : List String)
    → IsBelow xs ys
    → IsBelow (reverse_onto seen xs) (reverse_onto seen ys)
unfolding reverse_onto
IsBelow-reverse_onto [] xs ys h = h
IsBelow-reverse_onto (s ∷ seen) xs ys h = IsBelow-reverse_onto seen (s ∷ xs) (s ∷ ys) (refl, h)

enter-down :
    (b : Bool) (w : String) (seen : List String)
    → IsNotUp w
    → (enter b w seen ≡ seen) ⊎ (enter b w seen ≡ w ∷ seen)
unfolding enter
enter-down b w seen h = elim (Bool-cases (str_eq w "" || str_eq w ".")) [
  | inl e ↦ inl (rw e refl)
  | inr e ↦ inr (rw (e, h) refl)
]

walk-IsBelow :
    (b : Bool) (seen ws ys : List String)
    → All IsNotUp ws
    → IsBelow (reverse_onto seen []) (reverse_onto (walk b seen ws) ys)
unfolding walk reverse_onto
walk-IsBelow b seen [] ys h = IsBelow-reverse_onto seen [] ys tt
walk-IsBelow b seen (w ∷ ws) ys (n, h) = elim (enter-down b w seen n) [
  | inl e ↦ rw e (walk-IsBelow b seen ws ys h)
  | inr e ↦ rw e (
      IsBelow-trans (reverse_onto seen []) (reverse_onto seen (w ∷ []))
        (reverse_onto (walk b (w ∷ seen) ws) ys) (IsBelow-reverse_onto seen [] (w ∷ []) tt)
        (walk-IsBelow b (w ∷ seen) ws ys h))
]

split_on-cons :
    (d : Char) (s : String) → (w : String) × (ws : List String) × (split_on d s ≡ w ∷ ws)
unfolding split_on
split_on-cons d String.[] = ("", [], refl)
split_on-cons d (cons c s) =
    let (w, ws, e) = split_on-cons d s in
    elim (Bool-cases (code c == code d)) [
      | inl same ↦ ("", split_on d s, rw same refl)
      | inr other ↦ (cons c w, ws, rw (other, e) refl)
    ]

-- A text that is put together is cut where it was joined.
pub split_on-append :
    (d : Char) (s t : String) → split_on d (s ++ cons d t) ≡ List.◌++◌ (split_on d s) (split_on d t)
unfolding split_on
split_on-append d String.[] t = rw nil-append (ground arith)
split_on-append d (cons c s) t =
    let (w, ws, e) = split_on-cons d s in
    rw (cons-append, split_on-append d s t)
      (elim (Bool-cases (code c == code d)) [
        | inl same ↦ rw same refl
        | inr other ↦ rw (other, e) refl
      ])

-- A path without two dots, under a directory
pub steps-extra :
    (p : String)
    → includes p ".." ≡ false
    → IsBelow ("workspace" ∷ ("extra" ∷ [])) (steps true ("/workspace/extra/" ++ p))
unfolding steps split_on walk enter reverse_onto
steps-extra p h =
    let joined =
      append_assoc "/workspace/extra" "/" p
      ∙ ap (λ t. "/workspace/extra" ++ t)
          (cons-append "/" "" p ∙ ap (λ t. cons "/" t) (nil-append p)) in
    rw (joined, split_on-append "/" "/workspace/extra" p)
      (walk-IsBelow true ("extra" ∷ ("workspace" ∷ [])) (split_on "/" p) []
        (has_no_up p (split_on "/" p) h (split_on-All "/" p)))
