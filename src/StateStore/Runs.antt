-- ===== src/StateStore/Runs.antt =====
-- The rows of one queue: their indices follow one another.
use mathlib.Core.List
use mathlib.Core.Path.{subst}
use aimclaw.Base.{
  ℕ, suc, ◌+◌, ◌-◌, ◌≤◌, ◌<◌, String, ◌≡◌, refl, sym, ap, ◌∙◌, true, not, ◌&&◌, ◌||◌, some, List,
  [], ◌∷◌, ◌++◌, filter, map, length, length-append, latest, ltb, leb, ◌==◌, arith, Bool-cases, inl,
  inr,
}
use aimclaw.StateStore.{Item, Store, next_idx, of_key, trimmed, first_item}

-- The indices of a queue follow one another.
abbrev pub IsRun : ℕ → List Item → Type 0
IsRun n [] = Unit
IsRun n (i ∷ is) = (i.idx ≡ n) × IsRun (suc n) is

module _ (key : String) where
  abbrev pub rows : List Item → List Item
  rows is = filter (of_key key) is

  next-rows : (is : List Item) → next_idx key (rows is) ≡ next_idx key is
  unfolding next_idx
  next-rows [] = refl
  next-rows (i ∷ is) = ground (arith, next-rows is)

  pub first-rows : (is : List Item) → first_item key (rows is) ≡ first_item key is
  unfolding first_item
  first-rows [] = refl
  first-rows (i ∷ is) = ground (arith, first-rows is)

  -- of one key only
  abbrev pub AreKeyed : List Item → Type 0
  AreKeyed [] = Unit
  AreKeyed (i ∷ is) = (of_key key i ≡ true) × AreKeyed is

  pub rows-AreKeyed : (is : List Item) → AreKeyed (rows is)
  rows-AreKeyed [] = tt
  rows-AreKeyed (i ∷ is) = elim (Bool-cases (of_key key i)) [
    | inl e ↦ rw e (e, rows-AreKeyed is)
    | inr e ↦ rw e (rows-AreKeyed is)
  ]

  next-run :
      (n : ℕ) (i : Item) (is : List Item)
      → AreKeyed (i ∷ is)
      → IsRun n (i ∷ is)
      → next_idx key (i ∷ is) ≡ n + length (i ∷ is)
  unfolding next_idx
  next-run n i [] (e, h) (d, r) = ground arith
  next-run n i (j ∷ is) (e, h) (d, r) =
      let rest = next-run (suc n) j is h r in rw (e, d, rest) (omega arith)

  pub first-run :
      (n : ℕ) (i : Item) (is : List Item)
      → AreKeyed (i ∷ is)
      → IsRun n (i ∷ is)
      → first_item key (i ∷ is) ≡ some i
  unfolding first_item
  first-run n i [] (e, h) (d, r) = rw e refl
  first-run n i (j ∷ is) (e, h) (d, (f, r)) = rw (e, first-run (suc n) j is h (f, r)) (ground arith)

  rows-append : (is js : List Item) → rows (List.◌++◌ is js) ≡ List.◌++◌ (rows is) (rows js)
  rows-append [] js = refl
  rows-append (i ∷ is) js = ground (arith, rows-append is js)

  rows-trim :
      (c : ℕ) (is : List Item)
      → rows (filter (λ i. not (of_key key i && leb i.idx c)) is)
        ≡ filter (λ i. not (leb i.idx c)) (rows is)
  rows-trim c [] = refl
  rows-trim c (i ∷ is) = ground (arith, rows-trim c is)

  pub rows-drop :
      (n : ℕ) (is : List Item)
      → rows (filter (λ i. not (of_key key i && i.idx == n)) is)
        ≡ filter (λ i. not (i.idx == n)) (rows is)
  rows-drop n [] = refl
  rows-drop n (i ∷ is) = ground (arith, rows-drop n is)

kept_all : (n c : ℕ) (is : List Item) → c < n → IsRun n is → filter (λ i. not (leb i.idx c)) is ≡ is
kept_all n c [] h r = refl
kept_all n c (i ∷ is) h (e, r) = ground (arith, kept_all (suc n) c is (omega arith) r)

pub dropped_none :
    (n m : ℕ) (is : List Item) → m < n → IsRun n is → filter (λ i. not (i.idx == m)) is ≡ is
dropped_none n m [] h r = refl
dropped_none n m (i ∷ is) h (e, r) = ground (arith, dropped_none (suc n) m is (omega arith) r)

trimmed_run :
    (n c bound : ℕ) (is : List Item)
    → IsRun n is
    → n + length is ≡ suc (c + bound)
    → filter (λ i. not (leb i.idx c)) is ≡ latest bound is
trimmed_run n c bound [] r h = refl
trimmed_run n c bound (i ∷ is) (e, r) h = elim (Bool-cases (leb n c)) [
  | inl d ↦ ground (arith, trimmed_run (suc n) c bound is r (omega arith))
  | inr d ↦ ground (arith, kept_all (suc n) c is (ground arith) r)
]

length-map : (is : List Item) → length (map (λ i. i.value) is) ≡ length is
length-map [] = refl
length-map (i ∷ is) = ap suc (length-map is)

pub map-latest :
    (n : ℕ) (is : List Item) → map (λ i. i.value) (latest n is) ≡ latest n (map (λ i. i.value) is)
map-latest n [] = refl
map-latest n (i ∷ is) = rw (length-map is) (elim (Bool-cases (leb (suc (length is)) n)) [
  | inl e ↦ rw e refl
  | inr e ↦ rw e (map-latest n is)
])

latest_whole : (n : ℕ) (is : List Item) → length is ≤ n → latest n is ≡ is
latest_whole n [] h = refl
latest_whole n (i ∷ is) h = ground arith

IsRun-latest : (n bound : ℕ) (is : List Item) → IsRun n is → (m : ℕ) × IsRun m (latest bound is)
IsRun-latest n bound [] r = (n, tt)
IsRun-latest n bound (i ∷ is) (e, r) = elim (Bool-cases (leb (suc (length is)) bound)) [
  | inl d ↦ rw d (n, (e, r))
  | inr d ↦ rw d (IsRun-latest (suc n) bound is r)
]

IsRun-append :
    (n : ℕ) (is : List Item) (i : Item)
    → IsRun n is
    → i.idx ≡ n + length is
    → IsRun n (List.◌++◌ is (i ∷ []))
IsRun-append n [] i r e = (omega arith, tt)
IsRun-append n (j ∷ is) i (d, r) e = (d, IsRun-append (suc n) is i r (omega arith))

-- The deletion behind an append keeps the last entries.
rows-trimmed :
    (key : String) (n next bound : ℕ) (is : List Item)
    → IsRun n (rows key is)
    → n + length (rows key is) ≡ suc next
    → 0 < bound
    → rows key (trimmed key next (some bound) is) ≡ latest bound (rows key is)
rows-trimmed key n next bound is r e h = elim (Bool-cases (bound == 0 || ltb next bound)) [
  | inl d ↦ rw d (sym (latest_whole bound (rows key is) (ground arith)))
  | inr d ↦ rw d (
      rows-trim key (next - bound) is
      ∙ trimmed_run n (next - bound) bound (rows key is) r (ground arith))
]

abbrev pub IsQueue : String → Store → Type 0
IsQueue key s = (n : ℕ) × IsRun n (rows key s.lists)

-- The row that is appended continues the run, or begins one.
IsRun-continues :
    (key : String) (n : ℕ) (q : List Item) (i : Item)
    → AreKeyed key q
    → IsRun n q
    → i.idx ≡ next_idx key q
    → (m : ℕ) × IsRun m (List.◌++◌ q (i ∷ [])) × (m + length (List.◌++◌ q (i ∷ [])) ≡ suc i.idx)
unfolding next_idx
IsRun-continues key n [] i keyed r e = (0, (e, tt), omega (arith, e))
IsRun-continues key n (j ∷ q) i keyed r e =
    let at : i.idx ≡ n + length (j ∷ q) = e ∙ next-run key n j q keyed r in
    (n, IsRun-append n (j ∷ q) i r at, omega (arith, at, length-append (j ∷ q) (i ∷ [])))

pub enqueued :
    (key : String) (n bound : ℕ) (is : List Item) (i : Item)
    → IsRun n (rows key is)
    → i.idx ≡ next_idx key is
    → of_key key i ≡ true
    → 0 < bound
    → (rows key (trimmed key i.idx (some bound) (List.◌++◌ is (i ∷ [])))
        ≡ latest bound (List.◌++◌ (rows key is) (i ∷ [])))
      × ((m : ℕ) × IsRun m (rows key (trimmed key i.idx (some bound) (List.◌++◌ is (i ∷ [])))))
enqueued key n bound is i r e h pos =
    let joined : rows key (List.◌++◌ is (i ∷ [])) ≡ List.◌++◌ (rows key is) (i ∷ []) =
      rows-append key is (i ∷ []) ∙ rw h refl in
    let (m, run, len) =
      IsRun-continues key n (rows key is) i (rows-AreKeyed key is) r (e ∙ sym (next-rows key is)) in
    let same =
      rows-trimmed key m i.idx bound (List.◌++◌ is (i ∷ [])) (subst (IsRun m) (sym joined) run)
        (ap (λ q. m + length q) joined ∙ len) pos
      ∙ ap (latest bound) joined in
    let (m', run') = IsRun-latest m bound (List.◌++◌ (rows key is) (i ∷ [])) run in
    (same, (m', subst (IsRun m') (sym same) run'))

pub map-append :
    (is js : List Item)
    → map (λ i. i.value) (List.◌++◌ is js)
      ≡ List.◌++◌ (map (λ i. i.value) is) (map (λ i. i.value) js)
map-append [] js = refl
map-append (i ∷ is) js = ap (λ r. i.value ∷ r) (map-append is js)
