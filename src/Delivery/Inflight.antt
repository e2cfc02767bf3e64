-- ===== src/Delivery/Inflight.antt =====
-- The guard of `deliverSessionMessages` in delivery.ts: two polls, each on its own timer, drain the
-- sessions, and a drain waits for the platform in between.
use mathlib.Core.Path.{subst}
use mathlib.Core.Path.{subst}
use aimclaw.Base.{
  ℕ, ◌+◌, ◌≤◌, String, str_eq, str_eq_iff, str_eq_refl, ◌≡◌, refl, Bool, false, not, List, [], ◌∷◌,
  any, filter, count, leb, if◌then◌else◌, arith, Bool-cases, inl, inr,
}

-- `inflight` is the set `inflightDeliveries`, and `active` has the drains that have begun and not ended.
pub record Drains : Type 0 where
  pub inflight : List String
  pub active : List String

abbrev holds : List String → String → Bool
holds ids id = any (λ x. str_eq x id) ids

abbrev pub active_of : String → Drains → ℕ
active_of id r = count (λ x. str_eq x id) r.active

remove_first : String → List String → List String
remove_first id [] = []
remove_first id (x ∷ xs) = let rest = remove_first id xs in if str_eq x id then xs else x ∷ rest

-- The call, up to the drain.
unfoldable pub enter : String → Drains → Drains
enter id r =
    if holds r.inflight id then r else record { inflight = id ∷ r.inflight; active = id ∷ r.active }

-- The `finally`, once the drain is over, whether it threw or not.
unfoldable pub leave : String → Drains → Drains
unfolding remove_first
leave id r = record {
  inflight = filter (λ x. not (str_eq x id)) r.inflight;
  active = remove_first id r.active;
}

-- A poll calls for a session at any time, and a drain ends that has begun.
pub data Step : Drains → Drains → Type 0 where
  call : (id : String) {r : Drains} → Step r (enter id r)
  finish : (id : String) {r : Drains} → (1 ≤ active_of id r) → Step r (leave id r)

pub data Steps : Drains → Drains → Type 0 where
  done : {r : Drains} → Steps r r
  step : {r r' r'' : Drains} → Step r r' → Steps r' r'' → Steps r r''

-- One drain of the session at most, and the set holds the session while it runs.
abbrev pub IsExclusiveFor : String → Drains → Type 0
IsExclusiveFor id r = (active_of id r ≤ 1) × (holds r.inflight id ≡ leb 1 (active_of id r))

abbrev pub IsExclusive : Drains → Type 0
IsExclusive r = (id : String) → IsExclusiveFor id r

enter_own : (k : String) (r : Drains) → IsExclusiveFor k r → IsExclusiveFor k (enter k r)
unfolding enter
enter_own k r (few, same) = elim (Bool-cases (holds r.inflight k)) [
  | inl e ↦ rw e (few, same)
  | inr e ↦ rw (e, str_eq_refl k) (ground arith, ground arith)
]

enter-IsExclusive : (k : String) (r : Drains) → IsExclusive r → IsExclusive (enter k r)
unfolding enter
enter-IsExclusive k r h id = elim (Bool-cases (str_eq k id)) [
  | inl t ↦ subst (λ x. IsExclusiveFor x (enter k r)) ((str_eq_iff k id).0 t) (enter_own k r (h k))
  | inr f ↦ elim (Bool-cases (holds r.inflight k)) [
    | inl e ↦ rw e (h id)
    | inr e ↦ rw (e, f) (h id)
  ]
]

holds-filter :
    (k id : String) (xs : List String)
    → str_eq k id ≡ false
    → holds (filter (λ x. not (str_eq x k)) xs) id ≡ holds xs id
holds-filter k id [] e = refl
holds-filter k id (x ∷ xs) e =
    ground (arith, holds-filter k id xs e, str_eq_iff x k, str_eq_iff x id, str_eq_iff k id)

holds-filter_own :
    (k : String) (xs : List String) → holds (filter (λ x. not (str_eq x k)) xs) k ≡ false
holds-filter_own k [] = refl
holds-filter_own k (x ∷ xs) = ground (arith, holds-filter_own k xs)

count-remove_first :
    (k id : String) (xs : List String)
    → str_eq k id ≡ false
    → count (λ x. str_eq x id) (remove_first k xs) ≡ count (λ x. str_eq x id) xs
unfolding remove_first
count-remove_first k id [] e = refl
count-remove_first k id (x ∷ xs) e =
    ground (arith, count-remove_first k id xs e, str_eq_iff x k, str_eq_iff x id, str_eq_iff k id)

count-remove_first_own :
    (k : String) (xs : List String)
    → 1 ≤ count (λ x. str_eq x k) xs
    → count (λ x. str_eq x k) (remove_first k xs) + 1 ≡ count (λ x. str_eq x k) xs
unfolding remove_first
count-remove_first_own k [] e = absurd (omega arith)
count-remove_first_own k (x ∷ xs) e = ground (arith, count-remove_first_own k xs)

leave_own :
    (k : String) (r : Drains)
    → 1 ≤ active_of k r
    → IsExclusiveFor k r
    → IsExclusiveFor k (leave k r)
unfolding leave
leave_own k r one (few, same) =
    let less = count-remove_first_own k r.active one in
    let none_left : active_of k (leave k r) ≡ 0 = omega arith in
    (omega arith, rw (holds-filter_own k r.inflight, none_left) refl)

leave-IsExclusive :
    (k : String) (r : Drains) → 1 ≤ active_of k r → IsExclusive r → IsExclusive (leave k r)
unfolding leave
leave-IsExclusive k r one h id = elim (Bool-cases (str_eq k id)) [
  | inl t ↦
      subst (λ x. IsExclusiveFor x (leave k r)) ((str_eq_iff k id).0 t) (leave_own k r one (h k))
  | inr f ↦ rw (holds-filter k id r.inflight f, count-remove_first k id r.active f) (h id)
]

Step-IsExclusive : {r r' : Drains} → Step r r' → IsExclusive r → IsExclusive r'
Step-IsExclusive (call id {r}) h = enter-IsExclusive id r h
Step-IsExclusive (finish id {r} one) h = leave-IsExclusive id r one h

-- In every interleaving of calls and ends, each session has one drain at a time at most, and its next call is
-- let in exactly when no drain of it runs.
pub Steps-IsExclusive : {r r' : Drains} → Steps r r' → IsExclusive r → IsExclusive r'
Steps-IsExclusive done h = h
Steps-IsExclusive (step s ss) h = Steps-IsExclusive ss (Step-IsExclusive s h)
