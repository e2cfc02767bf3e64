-- ===== src/HostSweep/Giveup.antt =====
-- How a message whose container keeps crashing ends.
use aimclaw.Base.{
  ℕ, ◌+◌, ◌≤◌, ◌≡◌, refl, ap, ◌∙◌, true, false, List, [], ◌∷◌, ◌++◌, map, All, length, arith,
}
use aimclaw.SessionDb.{MessageIn, ProcessingAck, is_pending}
use aimclaw.HostSweep.{is_later, max_tries, retry_claims}
use aimclaw.HostSweep.Retry.{
  HaveDistinctIds, HaveDistinctIds-map, AreDistinctClaims, claimed, retried_by,
}
use aimclaw.HostSweep.Reset.{retry_claims-eq-map}

-- A cleanup after a crash: the time, and the claims that the container left.
pub record Crash : Type 0 where
  pub now : ℕ
  pub claims : List ProcessingAck

abbrev pub clean_up : List Crash → List MessageIn → List MessageIn
clean_up [] rows = rows
clean_up (c ∷ cs) rows = clean_up cs (retry_claims c.now c.claims rows)

-- The fate of one row.
abbrev pub fate : List Crash → MessageIn → MessageIn
fate [] m = m
fate (c ∷ cs) m = fate cs (retried_by c.now c.claims m)

-- Each crash leaves a claim on the message, at a time when its next try was due.
abbrev pub HitBy : List Crash → MessageIn → Type 0
HitBy [] m = Unit
HitBy (c ∷ cs) m =
    (claimed c.claims m ≡ true)
    × (is_later c.now m.process_after ≡ false)
    × HitBy cs (retried_by c.now c.claims m)

id-retried_by :
    (now : ℕ) (claims : List ProcessingAck) (m : MessageIn) → (retried_by now claims m).id ≡ m.id
id-retried_by now claims m = ground arith

map-fate :
    (c : Crash) (cs : List Crash) (rows : List MessageIn)
    → map (fate cs) (map (retried_by c.now c.claims) rows) ≡ map (fate (c ∷ cs)) rows
map-fate c cs [] = refl
map-fate c cs (m ∷ ms) = ap (λ t. fate (c ∷ cs) m ∷ t) (map-fate c cs ms)

map-fate-nil : (rows : List MessageIn) → rows ≡ map (fate []) rows
map-fate-nil [] = refl
map-fate-nil (m ∷ ms) = ap (λ t. m ∷ t) (map-fate-nil ms)

clean_up-eq-map :
    (cs : List Crash) (rows : List MessageIn)
    → HaveDistinctIds rows
    → All (λ c. AreDistinctClaims c.claims) cs
    → clean_up cs rows ≡ map (fate cs) rows
clean_up-eq-map [] rows d h = map-fate-nil rows
clean_up-eq-map (c ∷ cs) rows d (p, h) =
    ap (clean_up cs) (retry_claims-eq-map c.now c.claims rows d p)
    ∙ (clean_up-eq-map cs (map (retried_by c.now c.claims) rows)
          (HaveDistinctIds-map (retried_by c.now c.claims) (id-retried_by c.now c.claims) rows d) h
        ∙ map-fate c cs rows)

map-middle :
    (f : MessageIn → MessageIn) (before after : List MessageIn) (m : MessageIn)
    → map f (before ++ m ∷ after) ≡ map f before ++ f m ∷ map f after
map-middle f [] after m = refl
map-middle f (b ∷ bs) after m = ap (λ t. f b ∷ t) (map-middle f bs after m)

id-fate : (cs : List Crash) (m : MessageIn) → (fate cs m).id ≡ m.id
id-fate [] m = refl
id-fate (c ∷ cs) m = id-fate cs (retried_by c.now c.claims m) ∙ id-retried_by c.now c.claims m

fate_early :
    (cs : List Crash) (m : MessageIn)
    → is_pending m.status ≡ true
    → HitBy cs m
    → m.tries + length cs ≤ max_tries
    → (is_pending (fate cs m).status ≡ true) × ((fate cs m).tries ≡ m.tries + length cs)
fate_early [] m p h le = (p, omega arith)
fate_early (c ∷ cs) m p (hit, due, h) le =
    let m' = retried_by c.now c.claims m in
    let still : is_pending m'.status ≡ true = ground arith in
    let one_more : m'.tries ≡ m.tries + 1 = ground arith in
    let (a, b) = fate_early cs m' still h (omega arith) in (a, omega arith)

module _ (cs : List Crash) (before after : List MessageIn) (m : MessageIn) where
  clean_up_middle :
      HaveDistinctIds (before ++ m ∷ after)
      → All (λ c. AreDistinctClaims c.claims) cs
      → clean_up cs (before ++ m ∷ after) ≡ map (fate cs) before ++ fate cs m ∷ map (fate cs) after
  clean_up_middle d claims =
      clean_up-eq-map cs (before ++ m ∷ after) d claims ∙ map-middle (fate cs) before after m

  -- A pending message whose container keeps crashing, each time when its next try was due, is
  -- pending after each crash up to its fifth try, with one try more for each. Ids are unique in the
  -- table, and message ids in each list of claims.
  pub clean_up_tries_again :
      HaveDistinctIds (before ++ m ∷ after)
      → All (λ c. AreDistinctClaims c.claims) cs
      → is_pending m.status ≡ true
      → HitBy cs m
      → m.tries + length cs ≤ max_tries
      → (m' : MessageIn) × (clean_up cs (before ++ m ∷ after)
          ≡ map (fate cs) before ++ m' ∷ map (fate cs) after)
        × (m'.id ≡ m.id)
        × (is_pending m'.status ≡ true)
        × (m'.tries ≡ m.tries + length cs)
  clean_up_tries_again d claims p h early =
      let (still, more) = fate_early cs m p h early in
      (fate cs m, clean_up_middle d claims, id-fate cs m, still, more)
