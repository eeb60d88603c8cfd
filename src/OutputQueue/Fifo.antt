-- ===== src/OutputQueue/Fifo.antt =====
-- The output queue of net_ip/detail/output_queue.hpp over a whole history of calls, against a plain
-- first-in first-out list.
use chops.Prelude.{
  ◌%◌, ◌≡◌, refl, ap, ap₂, Option, none, some, List, [], ◌∷◌, ◌++◌, length, size_mod, arith,
}
use chops.OutputQueue.{
  SharedBuffer, OutputQueue, empty_queue, get_queue_stats, get_next_element, add_element,
}
use chops.OutputQueue.Counters.{
  IsCounted, sum_size, empty_queue-IsCounted, add_element-IsCounted, get_next_element-IsCounted,
}

-- The calls that change a queue.
pub data QueueCall (B E : Type 0) : Type 0 where
  adds : B → Option E → QueueCall B E
  gets : QueueCall B E

-- What the calls of `get_next_element` return on a plain list, and the list that they leave.
abbrev pub run_list :
    {B E : Type 0}
    → List (B × Option E)
    → List (QueueCall B E)
    → List (Option (B × Option E)) × List (B × Option E)
run_list l [] = ([], l)
run_list l (adds buf endp ∷ cs) = run_list (l ++ (buf, endp) ∷ []) cs
run_list [] (gets ∷ cs) = let r = run_list [] cs in (none ∷ r.0, r.1)
run_list (e ∷ l) (gets ∷ cs) = let r = run_list l cs in (some e ∷ r.0, r.1)

module _ {B E : Type 0} ⦃b : SharedBuffer B⦄ where
  -- An empty queue returns nothing and stays as it is.
  pub get_next_element-empty :
      (q : OutputQueue B E)
      → q.output_queue ≡ []
      → ((get_next_element q).0 ≡ none) × ((get_next_element q).1.output_queue ≡ [])
  unfolding get_next_element
  get_next_element-empty q e = ground arith

  -- Any other returns its front and keeps the rest.
  pub get_next_element-front :
      (q : OutputQueue B E) {x : B × Option E} {l : List (B × Option E)}
      → q.output_queue ≡ x ∷ l
      → ((get_next_element q).0 ≡ some x) × ((get_next_element q).1.output_queue ≡ l)
  unfolding get_next_element
  get_next_element-front q e = ground arith

  -- The same calls on the queue of the program.
  unfoldable pub run_calls :
      OutputQueue B E → List (QueueCall B E) → List (Option (B × Option E)) × OutputQueue B E
  run_calls q [] = ([], q)
  run_calls q (adds buf endp ∷ cs) = run_calls (add_element q buf endp) cs
  run_calls q (gets ∷ cs) =
      let (e, q') = get_next_element q in let r = run_calls q' cs in (e ∷ r.0, r.1)

  run_calls-from :
      (q : OutputQueue B E) (l : List (B × Option E)) (cs : List (QueueCall B E))
      → q.output_queue ≡ l
      → ((run_calls q cs).0 ≡ (run_list l cs).0)
        × ((run_calls q cs).1.output_queue ≡ (run_list l cs).1)
  unfolding run_calls add_element
  run_calls-from q l [] e = (refl, e)
  run_calls-from q l (adds buf endp ∷ cs) e =
      run_calls-from (add_element q buf endp) _ cs (ap (λ k. k ++ (buf, endp) ∷ []) e)
  run_calls-from q [] (gets ∷ cs) e =
      let (got, rest) = get_next_element-empty q e in
      let ih = run_calls-from (get_next_element q).1 [] cs rest in (ap₂ ◌∷◌ got ih.0, ih.1)
  run_calls-from q (x ∷ l) (gets ∷ cs) e =
      let (got, rest) = get_next_element-front q e in
      let ih = run_calls-from (get_next_element q).1 l cs rest in (ap₂ ◌∷◌ got ih.0, ih.1)

  -- Refinement: over any history of calls the queue returns what a plain first-in first-out list
  -- returns, and holds the elements that this list holds at the end.
  pub run_calls-run_list :
      (q : OutputQueue B E) (cs : List (QueueCall B E))
      → ((run_calls q cs).0 ≡ (run_list q.output_queue cs).0)
        × ((run_calls q cs).1.output_queue ≡ (run_list q.output_queue cs).1)
  run_calls-run_list q cs = run_calls-from q q.output_queue cs refl

  run_calls-IsCounted :
      (q : OutputQueue B E) (cs : List (QueueCall B E)) → IsCounted q → IsCounted (run_calls q cs).1
  unfolding run_calls
  run_calls-IsCounted q [] v = v
  run_calls-IsCounted q (adds buf endp ∷ cs) v =
      run_calls-IsCounted (add_element q buf endp) cs (add_element-IsCounted q buf endp v)
  run_calls-IsCounted q (gets ∷ cs) v =
      run_calls-IsCounted (get_next_element q).1 cs (get_next_element-IsCounted q v)

  -- After any history of calls on a new queue, the statistics are the number of elements and of
  -- bytes that the plain list holds, each modulo 2^64.
  pub get_queue_stats-run_calls :
      (cs : List (QueueCall B E))
      → let held = (run_list [] cs).1 in
        let stats = get_queue_stats (run_calls empty_queue cs).1 in
        (stats.output_queue_size ≡ length held % size_mod)
        × (stats.bytes_in_output_queue ≡ sum_size held % size_mod)
  unfolding get_queue_stats
  get_queue_stats-run_calls cs =
      let v = run_calls-IsCounted empty_queue cs empty_queue-IsCounted in
      let e = (run_calls-from empty_queue [] cs (unfold empty_queue in refl)).1 in
      (rw (← e) v.counts_elements, rw (← e) v.counts_bytes)
