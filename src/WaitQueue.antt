-- ===== src/WaitQueue.antt =====
-- The `wait_queue` of the queue repository, which net_ip/component/error_delivery.hpp uses: writers push
-- elements and close the queue, and a reader waits for them.
use chops.Prelude.{
  ◌≡◌, refl, ◌∙◌, sym, ap, Bool, true, false, Option, none, some, List, [], ◌∷◌, ◌++◌, append-nil,
  append_assoc,
}
pub mod ToCome
pub mod Reading
pub mod Emptying

pub record WaitQueue (Q A : Type 0) : Type 0 where
  pub emplace_push : Q → A → Bool × Q
  pub close : Q → Q
  -- none while the call waits; none in the result where the queue was closed
  pub wait_and_pop : Q → Option (Option A × Q)
  pub waiting : Q → List A  -- the elements in the queue, oldest first
  pub is_closed : Q → Bool
  -- A push puts the element behind the others; after the close it does nothing.
  pub push-waiting :
      (q : Q) (a : A) → is_closed q ≡ false → waiting (emplace_push q a).1 ≡ waiting q ++ a ∷ []
  pub push-is_closed : (q : Q) (a : A) → is_closed (emplace_push q a).1 ≡ is_closed q
  pub push-refused : (q : Q) (a : A) → is_closed q ≡ true → waiting (emplace_push q a).1 ≡ waiting q
  pub close-is_closed : (q : Q) → is_closed (close q) ≡ true
  pub close-waiting : (q : Q) → waiting (close q) ≡ waiting q
  -- It waits only while the queue is open and empty, gives the oldest element, and gives none only
  -- when the queue is closed.
  pub pop-waits : (q : Q) → wait_and_pop q ≡ none → (is_closed q ≡ false) × (waiting q ≡ [])
  pub pop-oldest :
      (q q' : Q) (a : A)
      → wait_and_pop q ≡ some (some a, q')
      → (waiting q ≡ a ∷ waiting q') × (is_closed q' ≡ is_closed q)
  pub pop-closed : (q q' : Q) → wait_and_pop q ≡ some (none, q') → is_closed q ≡ true

-- What a writer does.
pub data Write (A : Type 0) : Type 0 where
  pushes : A → Write A
  closes : Write A

-- The writes before the next call of the reader, and those after it.
abbrev pub first_writes : {A : Type 0} → List (List (Write A)) → List (Write A)
first_writes [] = []
first_writes (w ∷ ws) = w

abbrev pub next_writes : {A : Type 0} → List (List (Write A)) → List (List (Write A))
next_writes [] = []
next_writes (w ∷ ws) = ws

abbrev pub all_writes : {A : Type 0} → List (List (Write A)) → List (Write A)
all_writes [] = []
all_writes (w ∷ ws) = w ++ all_writes ws

-- The elements of the writes that come before the first close, and whether the queue is closed after
-- them, for a queue that is closed before them or not.
abbrev pub arriving : {A : Type 0} → Bool → List (Write A) → List A
arriving true ws = []
arriving false [] = []
arriving false (pushes a ∷ ws) = a ∷ arriving false ws
arriving false (closes ∷ ws) = []

abbrev pub closed_after : {A : Type 0} → Bool → List (Write A) → Bool
closed_after true ws = true
closed_after false [] = false
closed_after false (pushes a ∷ ws) = closed_after false ws
closed_after false (closes ∷ ws) = true

module _ {A : Type 0} where
  pub arriving-append :
      (c : Bool) (vs ws : List (Write A))
      → arriving c (vs ++ ws) ≡ arriving c vs ++ arriving (closed_after c vs) ws
  arriving-append true vs ws = refl
  arriving-append false [] ws = refl
  arriving-append false (pushes a ∷ vs) ws = ap (λ l. a ∷ l) (arriving-append false vs ws)
  arriving-append false (closes ∷ vs) ws = refl

  pub closed_after-append :
      (c : Bool) (vs ws : List (Write A))
      → closed_after c (vs ++ ws) ≡ closed_after (closed_after c vs) ws
  closed_after-append true vs ws = refl
  closed_after-append false [] ws = refl
  closed_after-append false (pushes a ∷ vs) ws = closed_after-append false vs ws
  closed_after-append false (closes ∷ vs) ws = refl

module _ {Q A : Type 0} ⦃w : WaitQueue Q A⦄ where
  unfoldable pub write : Q → Write A → Q
  write q (pushes a) = (w.emplace_push q a).1
  write q closes = w.close q

  unfoldable pub write_all : Q → List (Write A) → Q
  write_all q [] = q
  write_all q (x ∷ xs) = write_all (write q x) xs

  -- The queue after writes.
  pub write_all-closed :
      (q : Q) (c : Bool) (ws : List (Write A))
      → w.is_closed q ≡ c
      → w.is_closed (write_all q ws) ≡ closed_after c ws
  unfolding write_all write
  write_all-closed q true [] e = e
  write_all-closed q false [] e = e
  write_all-closed q true (pushes a ∷ ws) e =
      write_all-closed (w.emplace_push q a).1 true ws (w.push-is_closed q a ∙ e)
  write_all-closed q true (closes ∷ ws) e =
      write_all-closed (w.close q) true ws (w.close-is_closed q)
  write_all-closed q false (pushes a ∷ ws) e =
      write_all-closed (w.emplace_push q a).1 false ws (w.push-is_closed q a ∙ e)
  write_all-closed q false (closes ∷ ws) e =
      write_all-closed (w.close q) true ws (w.close-is_closed q)

  pub write_all-waiting :
      (q : Q) (c : Bool) (ws : List (Write A))
      → w.is_closed q ≡ c
      → w.waiting (write_all q ws) ≡ w.waiting q ++ arriving c ws
  unfolding write_all write
  write_all-waiting q true [] e = sym (append-nil (w.waiting q))
  write_all-waiting q false [] e = sym (append-nil (w.waiting q))
  write_all-waiting q true (pushes a ∷ ws) e =
      write_all-waiting (w.emplace_push q a).1 true ws (w.push-is_closed q a ∙ e)
      ∙ ap (λ l. l ++ []) (w.push-refused q a e)
  write_all-waiting q true (closes ∷ ws) e =
      write_all-waiting (w.close q) true ws (w.close-is_closed q)
      ∙ ap (λ l. l ++ []) (w.close-waiting q)
  write_all-waiting q false (pushes a ∷ ws) e =
      write_all-waiting (w.emplace_push q a).1 false ws (w.push-is_closed q a ∙ e)
      ∙ ap (λ l. l ++ arriving false ws) (w.push-waiting q a e)
      ∙ append_assoc (w.waiting q) (a ∷ []) (arriving false ws)
  write_all-waiting q false (closes ∷ ws) e =
      write_all-waiting (w.close q) true ws (w.close-is_closed q)
      ∙ ap (λ l. l ++ []) (w.close-waiting q)
