-- ===== src/HostSweep/Reset.antt =====
-- The loop of `resetStuckProcessingRows` over the claims, row by row.
use aimclaw.Base.{
  ℕ, String, str_eq, str_eq_iff, ◌≡◌, ◌≢◌, refl, ap, ◌∙◌, false, List, [], ◌∷◌, map, All, any,
  arith, Bool-cases, inl, inr,
}
use aimclaw.SessionDb.{MessageIn, ProcessingAck}
use aimclaw.HostSweep.{retry_claims}
use aimclaw.HostSweep.Retry.{
  HaveDistinctIds, HaveDistinctIds-map, AreDistinctClaims, retried_if, claimed, retried_by,
  retry-eq-map,
}

claimed-absent :
    (id : String) (cs : List ProcessingAck)
    → All (λ d. d.message_id ≢ id) cs
    → any (λ c. str_eq id c.message_id) cs ≡ false
claimed-absent id [] h = refl
claimed-absent id (c ∷ cs) (p, h) =
    ground (arith, claimed-absent id cs h, str_eq_iff id c.message_id)

id-retried_if : (now : ℕ) (id : String) (m : MessageIn) → (retried_if now id m).id ≡ m.id
id-retried_if now id m = ground arith

retried_by-cons :
    (now : ℕ) (c : ProcessingAck) (cs : List ProcessingAck) (m : MessageIn)
    → All (λ d. d.message_id ≢ c.message_id) cs
    → retried_by now cs (retried_if now c.message_id m) ≡ retried_by now (c ∷ cs) m
retried_by-cons now c cs m h = elim (Bool-cases (str_eq m.id c.message_id)) [
  | inl e ↦
      let same : m.id ≡ c.message_id = (str_eq_iff m.id c.message_id).0 e in
      let absent : claimed cs m ≡ false = rw same (claimed-absent c.message_id cs h) in
      ground (arith, absent, id-retried_if now c.message_id m)
  | inr e ↦ ground arith
]

map-retried_by-cons :
    (now : ℕ) (c : ProcessingAck) (cs : List ProcessingAck) (rows : List MessageIn)
    → All (λ d. d.message_id ≢ c.message_id) cs
    → map (retried_by now cs) (map (retried_if now c.message_id) rows)
      ≡ map (retried_by now (c ∷ cs)) rows
map-retried_by-cons now c cs [] h = refl
map-retried_by-cons now c cs (m ∷ ms) h =
    cc (retried_by-cons now c cs m h, map-retried_by-cons now c cs ms h)

map-retried_by-nil : (now : ℕ) (rows : List MessageIn) → rows ≡ map (retried_by now []) rows
map-retried_by-nil now [] = refl
map-retried_by-nil now (m ∷ ms) = cc (map-retried_by-nil now ms)

pub retry_claims-eq-map :
    (now : ℕ) (claims : List ProcessingAck) (rows : List MessageIn)
    → HaveDistinctIds rows
    → AreDistinctClaims claims
    → retry_claims now claims rows ≡ map (retried_by now claims) rows
unfolding retry_claims
retry_claims-eq-map now [] rows d c = map-retried_by-nil now rows
retry_claims-eq-map now (c ∷ cs) rows d (apart, rest) =
    ap (retry_claims now cs) (retry-eq-map now c.message_id rows d)
    ∙ (retry_claims-eq-map now cs (map (retried_if now c.message_id) rows)
          (HaveDistinctIds-map (retried_if now c.message_id) (id-retried_if now c.message_id) rows
            d)
          rest
        ∙ map-retried_by-cons now c cs rows apart)
