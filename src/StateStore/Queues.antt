-- ===== src/StateStore/Queues.antt =====
-- The queues of the threads, as lists of at most so many entries.
use mathlib.Core.List
use mathlib.Core.Path.{subst}
use aimclaw.Base.{
  ℕ, suc, ◌<◌, String, str_eq_refl, ◌≡◌, refl, sym, ap, ◌∙◌, not, ◌&&◌, Option, none, some, List,
  [], ◌∷◌, ◌++◌, filter, map, latest, ◌==◌, arith,
}
use aimclaw.Json.{Json}
use aimclaw.StateStore.{
  Item, Store, next_idx, of_key, first_item, taken, k, append_to_list, queue_of, enqueue, dequeue,
}
use aimclaw.StateStore.Runs.{
  IsRun, rows, AreKeyed, first-rows, rows-AreKeyed, first-run, rows-drop, dropped_none, map-latest,
  enqueued, map-append, IsQueue,
}

-- The head of a queue, and the rest
abbrev pub head_of : List Json → Option Json
head_of [] = none
head_of (x ∷ xs) = some x

abbrev pub tail_of : List Json → List Json
tail_of [] = []
tail_of (x ∷ xs) = xs

without_first :
    (key : String) (is : List Item) (n : ℕ) (i : Item) (q : List Item)
    → rows key is ≡ i ∷ q
    → IsRun n (i ∷ q)
    → rows key (filter (λ j. not (of_key key j && j.idx == i.idx)) is) ≡ q
without_first key is n i q e (d, r) =
    rows-drop key i.idx is
    ∙ (ap (filter (λ j. not (j.idx == i.idx))) e
        ∙ ground (arith, dropped_none (suc n) i.idx q (omega (arith, d)) r))

first_nil : (key : String) → first_item key [] ≡ none
unfolding first_item
first_nil key = refl

abbrev values : List Item → List Json
values q = map (λ i. i.value) q

abbrev heads : List Item → Option Json
heads q = head_of (values q)

abbrev tails : List Item → List Json
tails q = tail_of (values q)

-- What a dequeue makes of a queue
abbrev Takes : String → Store → Option Json × Store → Type 0
Takes key s (o, s') =
    IsQueue key s'
    × (o ≡ head_of (map (λ i. i.value) (rows key s.lists)))
    × (map (λ i. i.value) (rows key s'.lists) ≡ tail_of (map (λ i. i.value) (rows key s.lists)))

taken_lem :
    (key : String) (s : Store) (n : ℕ) (q : List Item)
    → rows key s.lists ≡ q
    → AreKeyed key q
    → IsRun n q
    → Takes key s (taken key s (first_item key s.lists))
taken_lem key s n [] e keyed r =
    rw (sym (first-rows key s.lists) ∙ (ap (first_item key) e ∙ first_nil key))
      ((n, subst (IsRun n) (sym e) r), sym (ap heads e), ap values e ∙ sym (ap tails e))
taken_lem key s n (i ∷ q) e keyed (d, r) =
    rw (sym (first-rows key s.lists) ∙ (ap (first_item key) e ∙ first-run key n i q keyed (d, r))) (
      let w = without_first key s.lists n i q e (d, r) in
      ((suc n, subst (IsRun (suc n)) (sym w) r), sym (ap heads e), ap values w ∙ sym (ap tails e)))

module _ (namespace : Option String) (thread : String) where
  abbrev key : String
  key = k namespace (queue_of namespace thread)

  -- What waits in the queue
  abbrev pub entries : Store → List Json
  entries s = map (λ i. i.value) (rows key s.lists)

  enqueue-entries :
      (now : ℕ) (entry : Json) (bound : ℕ) (s : Store)
      → 0 < bound
      → IsQueue key s
      → IsQueue key ((enqueue namespace now thread entry bound s).1)
        × (entries ((enqueue namespace now thread entry bound s).1)
            ≡ latest bound (List.◌++◌ (entries s) (entry ∷ [])))
  unfolding enqueue append_to_list
  enqueue-entries now entry bound s h (n, r) =
      let i : Item = record {
        key = key;
        idx = next_idx key s.lists;
        value = entry;
        expires_at = none;
      } in
      let (same, run) = enqueued key n bound s.lists i r refl (str_eq_refl key) h in
      (
        run,
        ap (map (λ i. i.value)) same
            ∙ (map-latest bound (List.◌++◌ (rows key s.lists) (i ∷ []))
                ∙ ap (latest bound) (map-append (rows key s.lists) (i ∷ []))),
      )

  dequeue-entries :
      (s : Store)
      → IsQueue key s
      → IsQueue key ((dequeue namespace thread s).1)
        × ((dequeue namespace thread s).0 ≡ head_of (entries s))
        × (entries ((dequeue namespace thread s).1) ≡ tail_of (entries s))
  unfolding dequeue
  dequeue-entries s (n, r) = taken_lem key s n (rows key s.lists) refl (rows-AreKeyed key s.lists) r

-- The calls on the queue of one thread, and an abstract queue with what it answers
pub data QueueCall : Type 0 where
  push : ℕ → Json → QueueCall
  pop : QueueCall

module _ (namespace : Option String) (thread : String) (bound : ℕ) where
  unfoldable pub run_queue : List QueueCall → Store → List (Option Json)
  unfolding enqueue dequeue
  run_queue [] s = []
  run_queue (push now entry ∷ calls) s =
      run_queue calls ((enqueue namespace now thread entry bound s).1)
  run_queue (pop ∷ calls) s =
      (dequeue namespace thread s).0 ∷ run_queue calls ((dequeue namespace thread s).1)

  -- First in, first out, over the last entries that fit
  abbrev pub run_list : List QueueCall → List Json → List (Option Json)
  run_list [] q = []
  run_list (push now entry ∷ calls) q = run_list calls (latest bound (List.◌++◌ q (entry ∷ [])))
  run_list (pop ∷ calls) q = head_of q ∷ run_list calls (tail_of q)

  -- Whatever is queued and taken, the store answers as a queue does that keeps the last entries up to the bound, in
  -- their order, if the indices of the thread's rows follow one another, as those of an empty queue do.
  pub run_queue-run_list :
      (calls : List QueueCall) (s : Store)
      → 0 < bound
      → IsQueue (k namespace (queue_of namespace thread)) s
      → run_queue calls s ≡ run_list calls (entries namespace thread s)
  unfolding run_queue
  run_queue-run_list [] s h q = refl
  run_queue-run_list (push now entry ∷ calls) s h q =
      let (q', e) = enqueue-entries namespace thread now entry bound s h q in
      run_queue-run_list calls _ h q' ∙ ap (run_list calls) e
  run_queue-run_list (pop ∷ calls) s h q =
      let (q', a, e) = dequeue-entries namespace thread s q in
      cc (a, run_queue-run_list calls ((dequeue namespace thread s).1) h q' ∙ ap (run_list calls) e)
