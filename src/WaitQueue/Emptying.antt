-- ===== src/WaitQueue/Emptying.antt =====
-- A wait queue of the queue repository that its writers close only once its reader could empty it.
use chops.Prelude.{
  ℕ, zero, suc, ◌+◌, ◌≤◌, ◌≡◌, refl, sym, ap, ◌∙◌, false≢true, true, false, List, [], ◌∷◌, ◌++◌,
  length, length-append, arith,
}
use chops.WaitQueue.{
  WaitQueue, Write, pushes, closes, all_writes, arriving, closed_after, arriving-append,
  closed_after-append, write, write_all, write_all-closed, write_all-waiting,
}
use chops.WaitQueue.Reading.{Reads, ends, waits, gets}

module _ {A : Type 0} where
  abbrev pub pushing : List A → List (Write A)
  pushing [] = []
  pushing (a ∷ rest) = pushes a ∷ pushing rest

  abbrev pub elements : List (List A) → List A
  elements [] = []
  elements (b ∷ bs) = b ++ elements bs

  -- Pushes, then as many more calls of the reader as `k`, and then the close.
  abbrev pub until_closed : List (List A) → ℕ → List (List (Write A))
  until_closed (b ∷ bs) k = pushing b ∷ until_closed bs k
  until_closed [] (suc k) = [] ∷ until_closed [] k
  until_closed [] zero = (closes ∷ []) ∷ []

  arriving-pushing : (b : List A) → arriving false (pushing b) ≡ b
  arriving-pushing [] = refl
  arriving-pushing (a ∷ b) = ap (λ l. a ∷ l) (arriving-pushing b)

  closed_after-pushing : (b : List A) → closed_after false (pushing b) ≡ false
  closed_after-pushing [] = refl
  closed_after-pushing (a ∷ b) = closed_after-pushing b

  pub arriving-until_closed :
      (bs : List (List A)) (k : ℕ) → arriving false (all_writes (until_closed bs k)) ≡ elements bs
  arriving-until_closed [] zero = refl
  arriving-until_closed [] (suc k) = arriving-until_closed [] k
  arriving-until_closed (b ∷ bs) k =
      arriving-append false (pushing b) (all_writes (until_closed bs k))
      ∙ rw (arriving-pushing b, closed_after-pushing b)
          (ap (λ l. b ++ l) (arriving-until_closed bs k))

  pub closed_after-until_closed :
      (bs : List (List A)) (k : ℕ) → closed_after false (all_writes (until_closed bs k)) ≡ true
  closed_after-until_closed [] zero = refl
  closed_after-until_closed [] (suc k) = closed_after-until_closed [] k
  closed_after-until_closed (b ∷ bs) k =
      closed_after-append false (pushing b) (all_writes (until_closed bs k))
      ∙ rw (closed_after-pushing b) (closed_after-until_closed bs k)

  pub length-until_closed :
      (bs : List (List A)) (k : ℕ) → length (until_closed bs k) ≡ length bs + k + 1
  length-until_closed [] zero = omega arith
  length-until_closed [] (suc k) = omega (arith, length-until_closed [] k)
  length-until_closed (b ∷ bs) k = omega (arith, length-until_closed bs k)

length_none : {A : Type 0} (xs : List A) → length xs ≤ 0 → xs ≡ []
length_none [] h = refl
length_none (x ∷ xs) h = absurd (omega arith)

module _ {Q A : Type 0} ⦃w : WaitQueue Q A⦄ where
  pushed :
      (q : Q) (b : List A)
      → w.is_closed q ≡ false
      → (w.is_closed (write_all q (pushing b)) ≡ false)
        × (w.waiting (write_all q (pushing b)) ≡ w.waiting q ++ b)
  pushed q b e = (
    write_all-closed q false (pushing b) e ∙ closed_after-pushing b,
    write_all-waiting q false (pushing b) e ∙ ap (λ l. w.waiting q ++ l) (arriving-pushing b),
  )

  -- The reader has emptied the queue when a call gives none.
  pub Reads-until_closed :
      (bs : List (List A)) (k : ℕ) (q at_end : Q) (given : List A)
      → w.is_closed q ≡ false
      → length (w.waiting q) + length (elements bs) ≤ k
      → Reads (until_closed bs k) q given at_end
      → w.waiting at_end ≡ []
  unfolding write_all write
  Reads-until_closed (b ∷ bs) k q at_end given open_yet few (ends e same) =
      absurd (false≢true (sym (pushed q b open_yet).0 ∙ w.pop-closed _ _ e))
  Reads-until_closed (b ∷ bs) k q at_end given open_yet few (waits e rest) =
      let (open_now, here) = pushed q b open_yet in
      Reads-until_closed bs k _ at_end given open_now
        (omega (arith, few, length-append b (elements bs), ap length (w.pop-waits _ e).1)) rest
  Reads-until_closed (b ∷ bs) k q at_end given open_yet few (gets {q' = q'} e rest) =
      let (open_now, here) = pushed q b open_yet in
      let (oldest, same) = w.pop-oldest _ _ _ e in
      Reads-until_closed bs k q' at_end _ (same ∙ open_now)
        (omega (
          arith,
          few,
          length-append b (elements bs),
          length-append (w.waiting q) b,
          ap length here,
          ap length oldest,
        ))
        rest
  Reads-until_closed [] (suc k) q at_end given open_yet few (ends e same) =
      absurd (false≢true (sym open_yet ∙ w.pop-closed _ _ e))
  Reads-until_closed [] (suc k) q at_end given open_yet few (waits e rest) =
      Reads-until_closed [] k q at_end given open_yet (omega (arith, ap length (w.pop-waits _ e).1))
        rest
  Reads-until_closed [] (suc k) q at_end given open_yet few (gets {q' = q'} e rest) =
      let (oldest, same) = w.pop-oldest _ _ _ e in
      Reads-until_closed [] k q' at_end _ (same ∙ open_yet) (omega (arith, few, ap length oldest))
        rest
  Reads-until_closed [] zero q at_end given open_yet few (ends e same) =
      ap w.waiting same ∙ w.close-waiting q ∙ length_none (w.waiting q) (omega (arith, few))
  Reads-until_closed [] zero q at_end given open_yet few (waits e rest) =
      absurd (false≢true (sym (w.pop-waits _ e).0 ∙ w.close-is_closed q))
  Reads-until_closed [] zero q at_end given open_yet few (gets e rest) =
      absurd (omega (arith, few, ap length (w.close-waiting q), ap length (w.pop-oldest _ _ _ e).0))
