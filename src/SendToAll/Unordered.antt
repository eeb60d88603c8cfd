-- ===== src/SendToAll/Unordered.antt =====
-- Collections of net_ip/component/send_to_all.hpp that hold the same interfaces in different orders.
use chops.Prelude.{
  ℕ, suc, ◌+◌, ◌≡◌, refl, ap, ap₂, sym, fun_ext, ◌∙◌, Bool, true, ◌&&◌, none, some, List, ◌∷◌,
  arith, if◌then◌else◌,
}
use mathlib.Core.Logic.{∥∥₁_elim}
use mathlib.Core.List.{Permᴰ, Perm}
use mathlib.Core.List.Permᴰ.{nil, cons, swap, trans}
use native.Mathlib.Nat.{ℕ_set}
use chops.OutputQueue.{OutputQueueStats}
use chops.WeakPtr.{Heap, ptr_eq}
use chops.BasicIoInterface.{BasicIoInterface, IoHandler, Sender, is_valid}
use chops.SendToAll.{SendToAll, send, get_total_output_queue_stats}
use chops.SendToAll.Sending.{all_valid, count, times, send-times}
use chops.SendToAll.Totals.{wrapped, measure, sum, get_total_output_queue_stats-sum}

-- What is computed by adding one element after the other, in any order.
module _ {A X : Type 0} (f : List A → X) (g : A → X → X)
    (adds : (x : A) (xs : List A) → f (x ∷ xs) ≡ g x (f xs))
    (commutes : (x y : A) (r : X) → g x (g y r) ≡ g y (g x r)) where
  order_free : {xs ys : List A} → Permᴰ xs ys → f xs ≡ f ys
  order_free nil = refl
  order_free (cons {a} {b} {l₁} {l₂} e d) = adds a l₁ ∙ ap₂ g e (order_free d) ∙ sym (adds b l₂)
  order_free (swap {a} {b} {a'} {b'} {l} e e') =
      adds a (b ∷ l)
      ∙ ap (g a) (adds b l)
      ∙ commutes a b (f l)
      ∙ ap₂ (λ x y. g x (g y (f l))) e' e
      ∙ sym (ap (g a') (adds b' l))
      ∙ sym (adds a' (b' ∷ l))
  order_free (trans c d) = order_free c ∙ order_free d

count-Perm : (q : ℕ) {xs ys : List BasicIoInterface} → Perm xs ys → count q xs ≡ count q ys
count-Perm q p = ∥∥₁_elim p (ℕ_set _ _) (
    order_free (count q) (λ io n. if ptr_eq io.ioh_wptr (some q) then suc n else n) (λ x xs. refl)
      (λ x y r. ground arith))

module _ {O : Type 0} where
  all_valid-Perm :
      (hp : Heap O) {xs ys : List BasicIoInterface} → Perm xs ys → all_valid hp xs ≡ all_valid hp ys
  all_valid-Perm hp p = ∥∥₁_elim p (hlevel) (
      order_free (all_valid hp) (λ io b. is_valid hp io && b) (λ x xs. refl)
        (λ x y r. ground arith))

  after_sends :
      (hp : Heap O) (method : O → O) {xs ys : List BasicIoInterface}
      → Perm xs ys
      → (q : ℕ) → times method (count q xs) (hp q) ≡ times method (count q ys) (hp q)
  after_sends hp method p q = ap (λ n. times method n (hp q)) (count-Perm q p)

module _ {O : Type 0} ⦃ioh : IoHandler O⦄ where
  sum-Perm :
      (f : O → ℕ) (hp : Heap O) {xs ys : List BasicIoInterface}
      → Perm xs ys
      → sum f hp xs ≡ sum f hp ys
  sum-Perm f hp p = ∥∥₁_elim p (ℕ_set _ _) (
      order_free (sum f hp) (λ io n. measure f hp io.ioh_wptr + n) (λ x xs. refl)
        (λ x y r. omega arith))

  -- The totals do not depend on the order of the interfaces, whether they are valid or not.
  pub get_total_output_queue_stats-Perm :
      (hp : Heap O) (s t : SendToAll)
      → Perm s.io_intfs t.io_intfs
      → get_total_output_queue_stats hp s ≡ get_total_output_queue_stats hp t
  get_total_output_queue_stats-Perm hp s t p =
      get_total_output_queue_stats-sum hp s
      ∙ ap₂ (λ (b : Bool) (x : OutputQueueStats). if b then some x else none) (all_valid-Perm hp p)
          (ap₂ (λ n m. wrapped (0 + n) (0 + m))
            (sum-Perm (λ o. (ioh.get_output_queue_stats o).output_queue_size) hp p)
            (sum-Perm (λ o. (ioh.get_output_queue_stats o).bytes_in_output_queue) hp p))
      ∙ sym (get_total_output_queue_stats-sum hp t)

  -- Where the interfaces of a collection are valid, `send` of any collection with the same interfaces in
  -- another order does the same to all handlers, and returns; the totals are the same too.
  pub send-Perm :
      {B E : Type 0} (sender : Sender O B E) (hp : Heap O) (s t : SendToAll) (buf : B)
      → Perm s.io_intfs t.io_intfs
      → all_valid hp s.io_intfs ≡ true
      → (send sender hp s buf ≡ send sender hp t buf)
        × (get_total_output_queue_stats hp s ≡ get_total_output_queue_stats hp t)
  send-Perm sender hp s t buf p v =
      let method : O → O = λ o. sender.send o buf none in
      let a = send-times sender hp s buf v in
      let b = send-times sender hp t buf (sym (all_valid-Perm hp p) ∙ v) in
      (
        ap₂ (λ r hp'. (r, hp')) (a.0 ∙ sym b.0)
            (fun_ext (λ q. a.1 q ∙ after_sends hp method p q ∙ sym (b.1 q))),
        get_total_output_queue_stats-Perm hp s t p,
      )
