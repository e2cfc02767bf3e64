-- ===== src/HostSweep/Decision.antt =====
-- When a running container is killed.
use aimclaw.Base.{
  ℕ, ◌+◌, ◌≤◌, ◌<◌, max, String, ◌≡◌, ◌≢◌, ◌↔◌, ◌⊎◌, refl, Option, List, [], ◌∷◌, All, arith, inl,
  inr,
}
use mathlib.Core.List.{Memᴰ}
use aimclaw.SessionDb.{invalid, at, Stamp, ProcessingAck}
use aimclaw.HostSweep.{
  ContainerState, StuckDecision, ok, judge, kill_ceiling, kill_claim, bash_timeout_ms, first_stuck,
  decide_stuck_action, absolute_ceiling_ms, claim_stuck_ms,
}

-- Since the claim more than the tolerance has passed, with no heartbeat after the claim.
abbrev pub IsStuck : ℕ → ℕ → ℕ → Stamp → Type 0
IsStuck now heartbeat tolerance invalid = ⊥
IsStuck now heartbeat tolerance (at claimed) = (claimed + tolerance < now) × (heartbeat ≤ claimed)

abbrev pub IsQuiet : ℕ → ℕ → ℕ → List ProcessingAck → Type 0
IsQuiet now heartbeat tolerance claims =
    All (λ c. ¬ IsStuck now heartbeat tolerance c.status_changed) claims

-- The heartbeat is older than the ceiling.
abbrev pub IsPastCeiling : ℕ → ℕ → ℕ → Type 0
IsPastCeiling now heartbeat ceiling = (0 < heartbeat) × (heartbeat + ceiling < now)

-- 30 minutes, or longer while Bash runs with a longer declared timeout
abbrev pub ceiling_of : Option ContainerState → ℕ
ceiling_of state = max absolute_ceiling_ms (bash_timeout_ms state)

abbrev pub tolerance_of : Option ContainerState → ℕ
tolerance_of state = max claim_stuck_ms (bash_timeout_ms state)

module _ (now heartbeat tolerance : ℕ) where
  judge-ok_iff :
      (id : String) (s : Stamp) (rest : StuckDecision)
      → (judge now heartbeat tolerance id s rest ≡ ok)
        ↔ ((¬ IsStuck now heartbeat tolerance s) × (rest ≡ ok))
  unfolding judge
  judge-ok_iff id invalid rest = ((λ e. ((λ s. s), e)), (λ h. h.1))
  judge-ok_iff id (at t) rest =
      ((λ e. ((λ s. ground arith), ground arith)), (λ h. ground (arith, h.0)))

  judge-kill :
      (id : String) (s : Stamp) (rest : StuckDecision) {id' : String} {age tol : ℕ}
      → judge now heartbeat tolerance id s rest ≡ kill_claim id' age tol
      → ((id ≡ id') × IsStuck now heartbeat tolerance s) ⊎ (rest ≡ kill_claim id' age tol)
  unfolding judge
  judge-kill id invalid rest e = inr e
  judge-kill id (at t) rest e = ground arith

  judge-ne-ceiling :
      (id : String) (s : Stamp) (rest : StuckDecision) {age ceiling : ℕ}
      → judge now heartbeat tolerance id s rest ≡ kill_ceiling age ceiling
      → rest ≡ kill_ceiling age ceiling
  unfolding judge
  judge-ne-ceiling id invalid rest e = e
  judge-ne-ceiling id (at t) rest e = ground arith

  first_stuck-ok_iff :
      (claims : List ProcessingAck)
      → (first_stuck now heartbeat tolerance claims ≡ ok) ↔ IsQuiet now heartbeat tolerance claims
  unfolding first_stuck
  first_stuck-ok_iff [] = ((λ _. tt), (λ _. refl))
  first_stuck-ok_iff (c ∷ cs) =
      let (to, from) =
        judge-ok_iff c.message_id c.status_changed (first_stuck now heartbeat tolerance cs) in
      let (ih_to, ih_from) = first_stuck-ok_iff cs in
      ((λ e. ((to e).0, ih_to (to e).1)), (λ h. from (h.0, ih_from h.1)))

  first_stuck-kill :
      (claims : List ProcessingAck) {id : String} {age tol : ℕ}
      → first_stuck now heartbeat tolerance claims ≡ kill_claim id age tol
      → (c : ProcessingAck) × Memᴰ c claims
        × (c.message_id ≡ id)
        × IsStuck now heartbeat tolerance c.status_changed
  unfolding first_stuck
  first_stuck-kill [] e = cc
  first_stuck-kill (c ∷ cs) e = elim (judge-kill c.message_id c.status_changed _ e) [
    | inl (same, stuck) ↦ (c, Memᴰ.head refl, same, stuck)
    | inr later ↦
        let (d, m, same, stuck) = first_stuck-kill cs later in (d, Memᴰ.tail m, same, stuck)
  ]

  first_stuck-ne-ceiling :
      (claims : List ProcessingAck) {age ceiling : ℕ}
      → first_stuck now heartbeat tolerance claims ≢ kill_ceiling age ceiling
  unfolding first_stuck
  first_stuck-ne-ceiling [] e = cc
  first_stuck-ne-ceiling (c ∷ cs) e =
      first_stuck-ne-ceiling cs (judge-ne-ceiling c.message_id c.status_changed _ e)

-- A container is left alone exactly when its heartbeat, if there is one, is no older than the ceiling
-- and no claim is stuck.
pub decide_stuck_action-ok_iff :
    (now heartbeat : ℕ) (state : Option ContainerState) (claims : List ProcessingAck)
    → (decide_stuck_action now heartbeat state claims ≡ ok) ↔ (
        (¬ IsPastCeiling now heartbeat (ceiling_of state))
        × IsQuiet now heartbeat (tolerance_of state) claims)
unfolding decide_stuck_action
decide_stuck_action-ok_iff now heartbeat state claims =
    let (to, from) = first_stuck-ok_iff now heartbeat (tolerance_of state) claims in
    ((λ e. ((λ p. ground arith), to (ground arith))), (λ h. ground (arith, from h.1, h.0)))

-- A container is killed for the ceiling only with a heartbeat older than that; the decision carries
-- the ceiling.
pub decide_stuck_action-kill_ceiling :
    (now heartbeat : ℕ) (state : Option ContainerState) (claims : List ProcessingAck)
    (age ceiling : ℕ)
    → decide_stuck_action now heartbeat state claims ≡ kill_ceiling age ceiling
    → IsPastCeiling now heartbeat (ceiling_of state) × (ceiling ≡ ceiling_of state)
unfolding decide_stuck_action
decide_stuck_action-kill_ceiling now heartbeat state claims age ceiling e = ground (
  arith,
  first_stuck-ne-ceiling now heartbeat (tolerance_of state) claims {age = age} {ceiling = ceiling},
)

-- A container is killed for a claim only if one of the claims, on the message that the decision names,
-- is stuck.
pub decide_stuck_action-kill_claim :
    (now heartbeat : ℕ) (state : Option ContainerState) (claims : List ProcessingAck) (id : String)
    (age tolerance : ℕ)
    → decide_stuck_action now heartbeat state claims ≡ kill_claim id age tolerance
    → (c : ProcessingAck) × Memᴰ c claims
      × (c.message_id ≡ id)
      × IsStuck now heartbeat (tolerance_of state) c.status_changed
unfolding decide_stuck_action
decide_stuck_action-kill_claim now heartbeat state claims id age tolerance e =
    first_stuck-kill now heartbeat (tolerance_of state) claims {id = id} {age = age}
      {tol = tolerance} (ground arith)
