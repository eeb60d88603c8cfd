-- ===== src/SendToAll/Reaching.antt =====
-- Sending with the collection of net_ip/component/send_to_all.hpp to the handlers of an acceptor of
-- net_ip/detail/tcp_acceptor.hpp whose io state changes it got.
use chops.Prelude.{
  ℕ, ◌≡◌, refl, sym, ap₂, subst, ◌∙◌, Bool, true, ◌&&◌, Option, none, some, List, [], ◌∷◌, ◌==◌,
  map, EraseWhere, Bool-cases, inl, inr, ==_iff, ==_refl, if◌then◌else◌,
}
use chops.NetEntityCommon.{Callback}
use chops.OutputQueue.{SharedBuffer}
use chops.IoCommon.{has_value}
use chops.MsgFrame.{MsgHdlr, MsgFrame}
use chops.WeakPtr.{Heap, lock_object, returns}
use chops.BasicIoInterface.{BasicIoInterface, IoHandler, Sender, equals}
use chops.TcpAcceptor.{new_tcp_acceptor}
use chops.TcpAcceptor.Addresses.{NotIn, Distinct, is_one_of}
use chops.TcpAcceptor.Histories.{Event, run}
use chops.TcpAcceptor.Soundness.{run-AreSafe}
use chops.TcpAcceptor.Listing.{listed}
use chops.SendToAll.{send}
use chops.SendToAll.Sending.{all_valid, count, times, send-times}
use chops.SendToAll.Following.{interface_to, AreAlive, follow, follow-interfaces}

-- An object, if there is one, after a call of a method.
abbrev pub after : {O : Type 0} → (O → O) → Option O → Option O
after method none = none
after method (some o) = some (method o)

count-NotIn : (q : ℕ) (ps : List ℕ) → NotIn q ps → count q (map interface_to ps) ≡ 0
count-NotIn q [] v = refl
count-NotIn q (p ∷ ps) v = elim (Bool-cases (p == q)) [
  | inl same ↦ absurd (v.0 (sym ((==_iff p q).0 same)))
  | inr other ↦ rw other (count-NotIn q ps v.1)
]

module _ {O : Type 0} where
  has_value-lock_object :
      (p : ℕ) (o : Option O) → has_value o ≡ true → has_value (lock_object p o) ≡ true
  has_value-lock_object p none v = v
  has_value-lock_object p (some o) v = refl

  pub AreAlive-is_one_of :
      (hp : Heap O) (ps : List ℕ)
      → ((q : ℕ) → is_one_of q ps ≡ true → has_value (hp q) ≡ true)
      → AreAlive hp ps
  AreAlive-is_one_of hp [] v = tt
  AreAlive-is_one_of hp (p ∷ ps) v = (
    v p (rw (==_refl p) refl),
    AreAlive-is_one_of hp ps (λ q h.
        v q (elim (Bool-cases (p == q)) [ inl same ↦ rw same refl | inr other ↦ rw other h ])),
  )

  AreAlive-all_valid :
      (hp : Heap O) (ps : List ℕ) → AreAlive hp ps → all_valid hp (map interface_to ps) ≡ true
  AreAlive-all_valid hp [] v = refl
  AreAlive-all_valid hp (p ∷ ps) v =
      ap₂ (λ x y. x && y) (has_value-lock_object p (hp p) v.0) (AreAlive-all_valid hp ps v.1)

  times_once : (method : O → O) (o : Option O) → times method 1 o ≡ after method o
  times_once method none = refl
  times_once method (some o) = refl

  times-count :
      (method : O → O) (o : Option O) (q : ℕ) (ps : List ℕ)
      → Distinct ps
      → times method (count q (map interface_to ps)) o
        ≡ (if is_one_of q ps then after method o else o)
  times-count method none q [] v = refl
  times-count method (some o) q [] v = refl
  times-count method o q (p ∷ ps) v = elim (Bool-cases (p == q)) [
    | inl same ↦
        rw (same, count-NotIn q ps (subst (λ r. NotIn r ps) ((==_iff p q).0 same) v.0))
          (times_once method o)
    | inr other ↦ rw other (times-count method o q ps v.1)
  ]

module _ {O B E C : Type 0} ⦃ioh : IoHandler O⦄ (sender : Sender O B E)
    (hp : List (Callback C) → Heap O) (er : (h : Heap O) → EraseWhere BasicIoInterface (equals h))
    (alive : (cs : List (Callback C)) → AreAlive (hp cs) (listed [] cs)) where
  -- Where no handler is destroyed while the calls list it, nor while it is in `m_io_handlers`: after
  -- any history of a new acceptor, `send` of the collection that got its io state changes returns,
  -- and each handler in `m_io_handlers` has done one `send` of the buffer, and every other object is
  -- as it was.
  pub follow-sent :
      {H F : Type 0} ⦃era : EraseWhere ℕ ◌==◌⦄ ⦃b : SharedBuffer B⦄ ⦃h : MsgHdlr H E⦄
      ⦃f : MsgFrame F⦄ (default_endp endp : E) (reuse_addr : Bool) (es : List (Event B E C H F))
      (now : Heap O) (buf : B)
      → AreAlive now (run (new_tcp_acceptor default_endp endp reuse_addr) es).io_handlers
      → let a = run (new_tcp_acceptor default_endp endp reuse_addr) es in
        let r = send sender now (follow hp er [] (record { io_intfs = [] }) a.calls) buf in
        (r.0 ≡ returns tt)
        × ((q : ℕ)
            → r.1 q ≡ (
                if is_one_of q a.io_handlers
                then after (λ o. sender.send o buf none) (now q)
                else now q))
  follow-sent default_endp endp reuse_addr es now buf v =
      let a = run (new_tcp_acceptor default_endp endp reuse_addr) es in
      let sent =
        send-times sender now (record { io_intfs = map interface_to a.io_handlers }) buf
          (AreAlive-all_valid now a.io_handlers v) in
      rw (follow-interfaces hp er alive default_endp endp reuse_addr es) (
        sent.0,
        λ q.
            sent.1 q
            ∙ times-count (λ o. sender.send o buf none) (now q) q a.io_handlers
                (run-AreSafe default_endp endp reuse_addr es).1,
      )
