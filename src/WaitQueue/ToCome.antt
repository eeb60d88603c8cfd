-- ===== src/WaitQueue/ToCome.antt =====
-- The elements of a wait queue that its reader will find, for the writes that are still made: a queue of
-- the queue repository, as net_ip/component/error_delivery.hpp reads it.
use chops.Prelude.{
  suc, ◌≤◌, ◌≡◌, refl, sym, ap, ap₂, ◌∙◌, false≢true, Bool, true, false, List, [], ◌∷◌, ◌++◌,
  length, append_assoc, arith,
}
use chops.WaitQueue.{
  WaitQueue, Write, first_writes, next_writes, all_writes, arriving, closed_after, arriving-append,
  closed_after-append, write_all, write_all-closed, write_all-waiting,
}

module _ {Q A : Type 0} ⦃w : WaitQueue Q A⦄ where
  -- The elements that are in the queue or will come into it.
  abbrev pub to_come : List (List (Write A)) → Q → List A
  to_come ws q = w.waiting q ++ arriving (w.is_closed q) (all_writes ws)

  abbrev pub will_close : List (List (Write A)) → Q → Bool
  will_close ws q = closed_after (w.is_closed q) (all_writes ws)

  pub to_come-next :
      (ws : List (List (Write A))) (q : Q)
      → to_come (next_writes ws) (write_all q (first_writes ws)) ≡ to_come ws q
  unfolding write_all
  to_come-next [] q = refl
  to_come-next (v ∷ ws) q =
      ap₂ (λ l c. l ++ arriving c (all_writes ws)) (write_all-waiting q _ v refl)
        (write_all-closed q _ v refl)
      ∙ append_assoc (w.waiting q) _ _
      ∙ ap (λ l. w.waiting q ++ l) (sym (arriving-append (w.is_closed q) v (all_writes ws)))

  pub will_close-next :
      (ws : List (List (Write A))) (q : Q)
      → will_close (next_writes ws) (write_all q (first_writes ws)) ≡ will_close ws q
  unfolding write_all
  will_close-next [] q = refl
  will_close-next (v ∷ ws) q =
      ap (λ c. closed_after c (all_writes ws)) (write_all-closed q _ v refl)
      ∙ sym (closed_after-append (w.is_closed q) v (all_writes ws))

  -- While the queue is open, and will be closed, there are writes left.
  pub next_shorter :
      (ws : List (List (Write A))) (q : Q)
      → w.is_closed (write_all q (first_writes ws)) ≡ false
      → will_close ws q ≡ true
      → length ws ≡ suc (length (next_writes ws))
  unfolding write_all
  next_shorter [] q open_yet closes =
      absurd (false≢true (sym (ap (λ c. closed_after {A = A} c []) open_yet) ∙ closes))
  next_shorter (v ∷ ws) q open_yet closes = refl

pub length-next_writes :
    {A : Type 0} (ws : List (List (Write A))) → length (next_writes ws) ≤ length ws
length-next_writes [] = omega arith
length-next_writes (v ∷ ws) = omega arith
