-- ===== src/Tests/Requests.antt =====
-- The active requester of a session.
use aimclaw.Base.{◌≡◌, ◌<◌, refl, none, some, List, [], ◌∷◌}
use aimclaw.RequestAuthority.{
  ActiveRequestAuthority, Call, recorded, after, latest, record_active_requester,
  resolve_active_requester, resolve_active_requester_lem,
}

abbrev calls : List Call
calls = recorded 2000 "s" "m2" (some "slack:bob") ∷ recorded 1000 "s" "m1" (some "slack:ann") ∷ []

-- Bob's message replaced Ann's, and his authority runs out.
requester_tests :
    ((resolve_active_requester 3000 "s" (some "m2") (after calls)).0 ≡ some "slack:bob")
    × ((resolve_active_requester 3000 "s" (some "m1") (after calls)).0 ≡ none)
    × ((resolve_active_requester 902000 "s" (some "m2") (after calls)).0 ≡ none)
unfolding resolve_active_requester record_active_requester
requester_tests = (refl, refl, refl)

resolve_active_requester_lem_example :
    (a : ActiveRequestAuthority) × (latest "s" calls ≡ some a)
    × (a.message_id ≡ "m2")
    × (a.user_id ≡ some "slack:bob")
    × (3000 < a.expires_at)
resolve_active_requester_lem_example =
    resolve_active_requester_lem 3000 "s" "m2" "slack:bob" calls requester_tests.0
