-- ===== src/Tests/Stores.antt =====
-- The store of the chat library.
use aimclaw.Base.{◌≡◌, refl, true, false, none, some, List, [], ◌∷◌, All, arith}
use aimclaw.Json.{str}
use aimclaw.StateStore.{k, Lock, Store, set_if_not_exists, acquire_lock}
use aimclaw.StateStore.Locks.{Call, IsForeign, after_all, acquire_lock_excludes}
use aimclaw.StateStore.Queues.{QueueCall, entries, run_queue, run_list, run_queue-run_list}

abbrev empty_store : Store
empty_store = record { kv = []; subscriptions = []; locks = []; lists = [] }

abbrev mine : Lock
mine = record { thread_id = "t"; token = "a"; expires_at = 150 }

abbrev locked : Store
locked = record empty_store {
  locks = record { thread_id = "bot:t"; token = "a"; expires_at = 150 } ∷ [];
}

locked_test : acquire_lock (some "bot") 100 "a" "t" 50 empty_store ≡ (some mine, locked)
unfolding acquire_lock
locked_test = refl

abbrev calls : List Call
calls =
    Call.clean 120
    ∷ (Call.acquire 130 "b" "t" 10
        ∷ (Call.release (record { thread_id = "t"; token = "b"; expires_at = 140 })
            ∷ (Call.force "u" ∷ [])))

calls-AreForeign :
    All (IsForeign (some "bot") (record mine { thread_id = k (some "bot") "t" })) calls
unfolding k
calls-AreForeign = (omega arith, (omega arith, (refl, (refl, tt))))

acquire_lock_excludes_example :
    (acquire_lock (some "bot") 150 "c" "t" 20 (after_all (some "bot") calls locked)).0 ≡ none
acquire_lock_excludes_example =
    acquire_lock_excludes (some "bot") 100 "a" "t" 50 empty_store locked mine calls 150 "c" 20
      locked_test calls-AreForeign (omega arith)

seen_twice :
    (set_if_not_exists none 10 "m"
      (str "x")
      (some 5)
      ((set_if_not_exists none 10 "m" (str "x") (some 5) empty_store).1)).0
    ≡ false
unfolding set_if_not_exists
seen_twice = refl

seen_later :
    (set_if_not_exists none 16 "m"
      (str "x")
      (some 5)
      ((set_if_not_exists none 10 "m" (str "x") (some 5) empty_store).1)).0
    ≡ true
unfolding set_if_not_exists
seen_later = refl

abbrev queue_calls : List QueueCall
queue_calls =
    QueueCall.push 1 (str "a")
    ∷ (QueueCall.push 2 (str "b")
        ∷ (QueueCall.push 3 (str "c") ∷ (QueueCall.pop ∷ (QueueCall.pop ∷ (QueueCall.pop ∷ [])))))

queue_test :
    run_queue none "t" 2 queue_calls empty_store ≡ some (str "b") ∷ (some (str "c") ∷ (none ∷ []))
unfolding run_queue
queue_test = refl

run_queue-run_list_example :
    run_queue none "t" 2 queue_calls empty_store
    ≡ run_list none "t" 2 queue_calls (entries none "t" empty_store)
run_queue-run_list_example =
    run_queue-run_list none "t" 2 queue_calls empty_store (omega arith) (0, tt)
