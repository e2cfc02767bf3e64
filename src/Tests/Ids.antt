-- ===== src/Tests/Ids.antt =====
-- Ids that a tick could draw: "x", "xx", "xxx", and so on.
use Prim.Native.Char.{code}
use Prim.Native.String.{String, [], ◌∷◌}
use text.Mathlib.TextLemmas.{tail-eq_of_cons-eq, head-eq_of_cons-eq, cons≢nil}
use aimclaw.Base.{
  arith, ℕ, zero, suc, str_eq, str_eq_iff, ◌≡◌, ◌≢◌, refl, sym, ap, false, Bool-cases, inl, inr,
}

unfoldable pub ids : ℕ → String
ids zero = "x"
ids (suc n) = "x" ∷ ids n

ids-ne-nil : (n : ℕ) → ids n ≢ []
unfolding ids
ids-ne-nil zero e = cons≢nil e
ids-ne-nil (suc n) e = cons≢nil e

pub ids-injective : (i j : ℕ) → ids i ≡ ids j → i ≡ j
unfolding ids
ids-injective zero zero e = refl
ids-injective zero (suc j) e = absurd (ids-ne-nil j (sym (tail-eq_of_cons-eq e)))
ids-injective (suc i) zero e = absurd (ids-ne-nil i (tail-eq_of_cons-eq e))
ids-injective (suc i) (suc j) e = ap suc (ids-injective i j (tail-eq_of_cons-eq e))

ids-ne-t1 : (j : ℕ) → "t1" ≢ ids j
unfolding ids
ids-ne-t1 zero e = absurd (omega (arith, ap code (head-eq_of_cons-eq e)))
ids-ne-t1 (suc j) e = absurd (omega (arith, ap code (head-eq_of_cons-eq e)))

pub t1-ids : (j : ℕ) → str_eq "t1" (ids j) ≡ false
t1-ids j = elim (Bool-cases (str_eq "t1" (ids j))) [
  | inl e ↦ absurd (ids-ne-t1 j ((str_eq_iff "t1" (ids j)).0 e))
  | inr e ↦ e
]
