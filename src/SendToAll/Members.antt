-- ===== src/SendToAll/Members.antt =====
-- The members of the collection of net_ip/component/send_to_all.hpp.
use chops.Prelude.{
  ℕ, Option, none, some, false≢true, sym, ==_refl, ◌≡◌, refl, ap, ◌∙◌, Bool, true, false, List, [],
  ◌∷◌, ◌++◌, EraseWhere, without, erase_where-without, if◌then◌else◌, Bool-cases, inl, inr, not,
  and-both, ◌&&◌,
}
use chops.IoCommon.{has_value}
use chops.WeakPtr.{Heap, lock}
use chops.WeakPtr.Order.{locked_eq}
use chops.BasicIoInterface.{BasicIoInterface, equals, is_valid}
use chops.SendToAll.{SendToAll, remove_io_interface, state_change}

-- The interfaces that are valid, and whether none of a list is equal to one.
abbrev pub valid_ones : {O : Type 0} → Heap O → List BasicIoInterface → List BasicIoInterface
valid_ones hp [] = []
valid_ones hp (io ∷ ios) = if is_valid hp io then io ∷ valid_ones hp ios else valid_ones hp ios

abbrev pub is_absent : {O : Type 0} → Heap O → BasicIoInterface → List BasicIoInterface → Bool
is_absent hp io [] = true
is_absent hp io (x ∷ xs) = not (equals hp x io) && is_absent hp io xs

locked_eq-expired : (a b : Option ℕ) → has_value b ≡ false → locked_eq a b ≡ not (has_value a)
locked_eq-expired a (some q) v = absurd (false≢true (sym v))
locked_eq-expired none none v = refl
locked_eq-expired (some p) none v = refl

locked_eq_self : (a : Option ℕ) → locked_eq a a ≡ true
locked_eq_self none = refl
locked_eq_self (some p) = rw (==_refl p) refl

false_of : (x : Bool) → not x ≡ true → x ≡ false
false_of false h = refl
false_of true h = absurd (false≢true h)

module _ {O : Type 0} (hp : Heap O) where
  equals-expired :
      (x io : BasicIoInterface) → is_valid hp io ≡ false → equals hp x io ≡ not (is_valid hp x)
  equals-expired x io v = locked_eq-expired (lock hp x.ioh_wptr) (lock hp io.ioh_wptr) v

  without-expired :
      (ios : List BasicIoInterface) (io : BasicIoInterface)
      → is_valid hp io ≡ false
      → without (equals hp) ios io ≡ valid_ones hp ios
  without-expired [] io v = refl
  without-expired (x ∷ xs) io v = elim (Bool-cases (is_valid hp x)) [
    | inl valid ↦ rw (equals-expired x io v, valid) (ap (λ l. x ∷ l) (without-expired xs io v))
    | inr expired ↦ rw (equals-expired x io v, expired) (without-expired xs io v)
  ]

  without-absent :
      (ios : List BasicIoInterface) (io : BasicIoInterface)
      → is_absent hp io ios ≡ true
      → without (equals hp) (ios ++ io ∷ []) io ≡ ios
  without-absent [] io v = rw (locked_eq_self (lock hp io.ioh_wptr)) refl
  without-absent (x ∷ xs) io v =
      let (first, rest) = and-both (not (equals hp x io)) (is_absent hp io xs) v in
      rw (false_of (equals hp x io) first) (ap (λ l. x ∷ l) (without-absent xs io rest))

module _ {O : Type 0} (hp : Heap O) ⦃er : EraseWhere BasicIoInterface (equals hp)⦄ where
  -- The removal of an expired interface removes all interfaces that are expired, and no other.
  pub remove_io_interface-valid_ones :
      (s : SendToAll) (io : BasicIoInterface)
      → is_valid hp io ≡ false
      → (remove_io_interface hp s io).io_intfs ≡ valid_ones hp s.io_intfs
  remove_io_interface-valid_ones s io v =
      erase_where-without er s.io_intfs io ∙ without-expired hp s.io_intfs io v

  -- Where no interface of the collection equals a new one: the state change that starts it and then
  -- the one that ends it leave the collection as it was.
  pub state_change-absent :
      (s : SendToAll) (io : BasicIoInterface) (n m : ℕ)
      → is_absent hp io s.io_intfs ≡ true
      → state_change hp (state_change hp s io n true) io m false ≡ s
  state_change-absent s io n m v =
      ap (λ l. record { io_intfs = l })
        (erase_where-without er (s.io_intfs ++ io ∷ []) io ∙ without-absent hp s.io_intfs io v)
