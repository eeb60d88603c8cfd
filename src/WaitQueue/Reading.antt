-- ===== src/WaitQueue/Reading.antt =====
-- The calls of `wait_and_pop` of the wait queue of the queue repository up to the first that gives none, as
-- the sink of net_ip/component/error_delivery.hpp makes them.
use chops.Prelude.{◌≡◌, none, some, List, [], ◌∷◌}
use chops.WaitQueue.{WaitQueue, Write, first_writes, next_writes, write_all}

module _ {Q A : Type 0} ⦃w : WaitQueue Q A⦄ where
  -- Before each call the next writes are made. A call waits, gives an element, or gives none; `given`
  -- are the elements, and `at_end` is the queue at the call that gives none.
  pub data Reads : List (List (Write A)) → Q → List A → Q → Type 0 where
    ends :
        {ws : List (List (Write A))} {q q' at_end : Q}
        → w.wait_and_pop (write_all q (first_writes ws)) ≡ some (none, q')
        → at_end ≡ write_all q (first_writes ws)
        → Reads ws q [] at_end
    waits :
        {ws : List (List (Write A))} {q at_end : Q} {given : List A}
        → w.wait_and_pop (write_all q (first_writes ws)) ≡ none
        → Reads (next_writes ws) (write_all q (first_writes ws)) given at_end
        → Reads ws q given at_end
    gets :
        {ws : List (List (Write A))} {q q' at_end : Q} {a : A} {given : List A}
        → w.wait_and_pop (write_all q (first_writes ws)) ≡ some (some a, q')
        → Reads (next_writes ws) q' given at_end
        → Reads ws q (a ∷ given) at_end
