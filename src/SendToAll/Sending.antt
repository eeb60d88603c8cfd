-- ===== src/SendToAll/Sending.antt =====
-- `send` of net_ip/component/send_to_all.hpp.
use chops.Prelude.{
  ℕ, zero, suc, subst, ◌≡◌, refl, ap, ap₂, sym, ◌∙◌, Bool, true, false, false≢true, and-both, ◌&&◌,
  Option, none, some, List, [], ◌∷◌, ◌++◌, ◌==◌, ==_iff, Bool-cases, inl, inr, if◌then◌else◌,
}
use chops.NetIpError.{make_error_code, weak_ptr_expired}
use chops.IoCommon.{has_value}
use chops.WeakPtr.{Heap, returns, throws, put, lock, lock_object, call_object, call_method, ptr_eq}
use chops.BasicIoInterface.{BasicIoInterface, IoHandler, Sender, is_valid}
use chops.BasicIoInterface
use chops.SendToAll.{SendToAll, send_each, send, then_do}

abbrev pub all_valid : {O : Type 0} → Heap O → List BasicIoInterface → Bool
all_valid hp [] = true
all_valid hp (io ∷ ios) = is_valid hp io && all_valid hp ios

-- How many of the interfaces are of the handler at an address.
abbrev pub count : ℕ → List BasicIoInterface → ℕ
count q [] = 0
count q (io ∷ ios) = if ptr_eq io.ioh_wptr (some q) then suc (count q ios) else count q ios

-- An object, if there is one, after `n` calls of a method.
abbrev pub times : {O : Type 0} → (O → O) → ℕ → Option O → Option O
times method n none = none
times method zero (some o) = some o
times method (suc n) (some o) = times method n (some (method o))

module _ {O : Type 0} where
  times-zero : (method : O → O) (o : Option O) → o ≡ times method 0 o
  times-zero method none = refl
  times-zero method (some o) = refl

  expired_at :
      {A : Type 0} (hp : Heap O) (p : ℕ) (o : Option O) (method : O → A × O)
      → has_value (lock_object p o) ≡ false
      → call_object hp p o method ≡ (throws (make_error_code weak_ptr_expired), hp)
  expired_at hp p none method v = refl
  expired_at hp p (some o) method v = absurd (false≢true (sym v))

  pub call_method-expired :
      {A : Type 0} (hp : Heap O) (w : Option ℕ) (method : O → A × O)
      → has_value (lock hp w) ≡ false
      → call_method hp w method ≡ (throws (make_error_code weak_ptr_expired), hp)
  call_method-expired hp none method v = refl
  call_method-expired hp (some p) method v = expired_at hp p (hp p) method v

  object_at :
      (hp : Heap O) (p : ℕ) (o : Option O)
      → hp p ≡ o
      → has_value (lock_object p o) ≡ true
      → (o' : O) × (hp p ≡ some o')
  object_at hp p none e v = absurd (false≢true v)
  object_at hp p (some o) e v = (o, e)

  pub object_of :
      (hp : Heap O) (w : Option ℕ)
      → has_value (lock hp w) ≡ true
      → (p : ℕ) × (o : O) × (w ≡ some p) × (hp p ≡ some o)
  object_of hp none v = absurd (false≢true v)
  object_of hp (some p) v = let (o, e) = object_at hp p (hp p) refl v in (p, o, refl, e)

  put-valid :
      (hp : Heap O) (p : ℕ) (o o' : O) (w : Option ℕ)
      → hp p ≡ some o
      → has_value (lock (put hp p o') w) ≡ has_value (lock hp w)
  put-valid hp p o o' none e = refl
  put-valid hp p o o' (some q) e = elim (Bool-cases (p == q)) [
    | inl same ↦ rw (same, subst (λ r. hp r ≡ some o) ((==_iff p q).0 same) e) refl
    | inr other ↦ rw other refl
  ]

  put-all_valid :
      (hp : Heap O) (p : ℕ) (o o' : O) (ios : List BasicIoInterface)
      → hp p ≡ some o
      → all_valid (put hp p o') ios ≡ all_valid hp ios
  put-all_valid hp p o o' [] e = refl
  put-all_valid hp p o o' (io ∷ ios) e =
      ap₂ (λ x y. x && y) (put-valid hp p o o' io.ioh_wptr e) (put-all_valid hp p o o' ios e)

module _ {O B E : Type 0} ⦃ioh : IoHandler O⦄ (sender : Sender O B E) where
  -- One round of the loop, for an interface that is valid.
  send_each-valid :
      (hp : Heap O) (io : BasicIoInterface) (ios : List BasicIoInterface) (buf : B) (p : ℕ) (o : O)
      → io.ioh_wptr ≡ some p
      → hp p ≡ some o
      → send_each sender hp (io ∷ ios) buf
        ≡ send_each sender (put hp p (sender.send o buf none)) ios buf
  unfolding send_each BasicIoInterface.send
  send_each-valid hp io ios buf p o ew eo =
      let method : O → Unit {0} × O = λ x. (tt, sender.send x buf none) in
      ap (λ r. then_do r (λ hp'. send_each sender hp' ios buf))
        (ap (λ w. call_method hp w method) ew ∙ ap (λ x. call_object hp p x method) eo)

  send_each-invalid :
      (hp : Heap O) (io : BasicIoInterface) (ios : List BasicIoInterface) (buf : B)
      → is_valid hp io ≡ false
      → send_each sender hp (io ∷ ios) buf ≡ (throws (make_error_code weak_ptr_expired), hp)
  unfolding send_each BasicIoInterface.send
  send_each-invalid hp io ios buf v =
      ap (λ r. then_do r (λ hp'. send_each sender hp' ios buf))
        (call_method-expired hp io.ioh_wptr (λ x. (tt, sender.send x buf none)) v)

  -- What the round does to the object at an address.
  times-put :
      (method : O → O) (hp : Heap O) (p q : ℕ) (o : O) (io : BasicIoInterface)
      (ios : List BasicIoInterface)
      → io.ioh_wptr ≡ some p
      → hp p ≡ some o
      → times method (count q ios) (put hp p (method o) q)
        ≡ times method (count q (io ∷ ios)) (hp q)
  times-put method hp p q o io ios ew eo = elim (Bool-cases (p == q)) [
    | inl same ↦ rw (ew, same, subst (λ r. hp r ≡ some o) ((==_iff p q).0 same) eo) refl
    | inr other ↦ rw (ew, other) refl
  ]

  send_each-times :
      (ios : List BasicIoInterface) (hp : Heap O) (buf : B)
      → all_valid hp ios ≡ true
      → ((send_each sender hp ios buf).0 ≡ returns tt)
        × ((q : ℕ)
            → (send_each sender hp ios buf).1 q
              ≡ times (λ o. sender.send o buf none) (count q ios) (hp q))
  unfolding send_each
  send_each-times [] hp buf v = (refl, λ q. times-zero (λ o. sender.send o buf none) (hp q))
  send_each-times (io ∷ ios) hp buf v =
      let (first, rest) = and-both (is_valid hp io) (all_valid hp ios) v in
      let (p, o, ew, eo) = object_of hp io.ioh_wptr first in
      let hp' = put hp p (sender.send o buf none) in
      let (result, objects) = send_each-times ios hp' buf (put-all_valid hp p o _ ios eo ∙ rest) in
      rw (send_each-valid hp io ios buf p o ew eo)
        (result, λ q. objects q ∙ times-put (λ x. sender.send x buf none) hp p q o io ios ew eo)

  send_each-expired :
      (pre : List BasicIoInterface) (bad : BasicIoInterface) (post : List BasicIoInterface)
      (hp : Heap O) (buf : B)
      → all_valid hp pre ≡ true
      → is_valid hp bad ≡ false
      → send_each sender hp (pre ++ bad ∷ post) buf
        ≡ (throws (make_error_code weak_ptr_expired), (send_each sender hp pre buf).1)
  unfolding send_each
  send_each-expired [] bad post hp buf v e = send_each-invalid hp bad post buf e
  send_each-expired (io ∷ ios) bad post hp buf v e =
      let (first, rest) = and-both (is_valid hp io) (all_valid hp ios) v in
      let (p, o, ew, eo) = object_of hp io.ioh_wptr first in
      rw
        (
          send_each-valid hp io (ios ++ bad ∷ post) buf p o ew eo,
          send_each-valid hp io ios buf p o ew eo,
        )
        (send_each-expired ios bad post (put hp p (sender.send o buf none)) buf
          (put-all_valid hp p o _ ios eo ∙ rest) (put-valid hp p o _ bad.ioh_wptr eo ∙ e))

  -- Where all interfaces of the collection are valid: `send` returns, and the handler of each of them
  -- has done as many `send`s of the buffer as there are interfaces of it in the collection; all other
  -- handlers are as before.
  pub send-times :
      (hp : Heap O) (s : SendToAll) (buf : B)
      → all_valid hp s.io_intfs ≡ true
      → ((send sender hp s buf).0 ≡ returns tt)
        × ((q : ℕ)
            → (send sender hp s buf).1 q
              ≡ times (λ o. sender.send o buf none) (count q s.io_intfs) (hp q))
  unfolding send
  send-times hp s buf v = send_each-times s.io_intfs hp buf v

  -- Where the interfaces before one are valid, and that one is expired: `send` throws
  -- `weak_ptr_expired`. It has sent to those before, and to none behind.
  pub send-throws :
      (hp : Heap O) (pre : List BasicIoInterface) (bad : BasicIoInterface)
      (post : List BasicIoInterface) (buf : B)
      → all_valid hp pre ≡ true
      → is_valid hp bad ≡ false
      → send sender hp (record { io_intfs = pre ++ bad ∷ post }) buf ≡ (
        throws (make_error_code weak_ptr_expired),
        (send sender hp (record { io_intfs = pre }) buf).1,
      )
  unfolding send
  send-throws hp pre bad post buf v e = send_each-expired pre bad post hp buf v e
