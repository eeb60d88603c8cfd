-- ===== src/SendToAll/Following.antt =====
-- The collection of net_ip/component/send_to_all.hpp as the io state change function of an acceptor of
-- net_ip/detail/tcp_acceptor.hpp, whose handlers are those that are sent to.
use chops.Prelude.{
  ℕ, ◌≡◌, refl, sym, ap, ◌∙◌, Bool, true, false, false≢true, Option, none, some, List, [], ◌∷◌,
  ◌++◌, ◌==◌, map, map-append, append-nil, append_assoc, length, EraseWhere, without,
  erase_where-without, Bool-cases, inl, inr, arith, ==_iff, suc, subst,
}
use chops.NetEntityCommon.{Callback, io_state_chg, error_call, bad_function_call}
use chops.OutputQueue.{SharedBuffer}
use chops.IoCommon.{has_value}
use chops.MsgFrame.{MsgHdlr, MsgFrame}
use chops.WeakPtr.{Heap}
use chops.BasicIoInterface.{BasicIoInterface, equals}
use chops.TcpAcceptor.{new_tcp_acceptor}
use chops.TcpAcceptor.Histories.{Event, run}
use chops.TcpAcceptor.Ready.{Kept}
use chops.TcpAcceptor.Induction.{run-Kept}
use chops.TcpAcceptor.Listing.{listed, listed_after, listed-snoc}
use chops.SendToAll.{SendToAll, state_change}

-- The interface of the handler at an address.
abbrev pub interface_to : ℕ → BasicIoInterface
interface_to p = record { ioh_wptr = some p }

module _ {O : Type 0} where
  -- The handlers at these addresses were not destroyed.
  abbrev pub AreAlive : Heap O → List ℕ → Type 0
  AreAlive hp [] = Unit {0}
  AreAlive hp (p ∷ ps) = (has_value (hp p) ≡ true) × AreAlive hp ps

  equals_alive :
      (hp : Heap O) (q p : ℕ) (a b : Option O)
      → hp q ≡ a
      → hp p ≡ b
      → has_value a ≡ true
      → equals hp (interface_to q) (interface_to p) ≡ (q == p)
  equals_alive hp q p none b ea eb v = absurd (false≢true v)
  equals_alive hp q p (some o) (some r) ea eb v = rw (ea, eb) ground arith
  equals_alive hp q p (some o) none ea eb v = elim (Bool-cases (q == p)) [
    | inl same ↦ absurd (cc (sym ea ∙ ap hp ((==_iff q p).0 same) ∙ eb))
    | inr other ↦ rw (ea, eb, other) refl
  ]

  without-interface_to :
      (hp : Heap O) (qs : List ℕ) (p : ℕ)
      → AreAlive hp qs
      → without (equals hp) (map interface_to qs) (interface_to p)
        ≡ map interface_to (without ◌==◌ qs p)
  without-interface_to hp [] p v = refl
  without-interface_to hp (q ∷ qs) p v = elim (Bool-cases (q == p)) [
    | inl same ↦
        rw (equals_alive hp q p (hp q) (hp p) refl refl v.0, same)
          (without-interface_to hp qs p v.1)
    | inr other ↦
        rw (equals_alive hp q p (hp q) (hp p) refl refl v.0, other)
          (ap (λ l. interface_to q ∷ l) (without-interface_to hp qs p v.1))
  ]

-- The collection after the calls `cs` that come after `done`; `hp done` is the heap during the call
-- that follows these.
module _ {O C : Type 0} (hp : List (Callback C) → Heap O)
    (er : (h : Heap O) → EraseWhere BasicIoInterface (equals h)) where
  abbrev pub after_call : SendToAll → Heap O → Callback C → SendToAll
  after_call s h (io_state_chg f p n starting) =
      state_change h ⦃er = er h⦄ s (interface_to p) n starting
  after_call s h (error_call f p err) = s
  after_call s h bad_function_call = s

  abbrev pub follow : List (Callback C) → SendToAll → List (Callback C) → SendToAll
  follow done s [] = s
  follow done s (c ∷ cs) = follow (done ++ c ∷ []) (after_call s (hp done) c) cs

  follow-snoc :
      (done : List (Callback C)) (s : SendToAll) (cs : List (Callback C)) (c : Callback C)
      → follow done s (cs ++ c ∷ []) ≡ after_call (follow done s cs) (hp (done ++ cs)) c
  follow-snoc done s [] c = rw (append-nil done) refl
  follow-snoc done s (x ∷ cs) c =
      follow-snoc (done ++ x ∷ []) (after_call s (hp done) x) cs c
      ∙ ap (λ l. after_call (follow done s (x ∷ cs)) (hp l) c) (append_assoc done (x ∷ []) cs)

  -- The calls list the handlers of the acceptor, and the collection has their interfaces.
  abbrev AreFollowed : List ℕ → ℕ → List (Callback C) → Type 0
  AreFollowed hs n cs =
      (listed [] cs ≡ hs)
      × (follow [] (record { io_intfs = [] }) cs ≡ record { io_intfs = map interface_to hs })

  module _ (alive : (cs : List (Callback C)) → AreAlive (hp cs) (listed [] cs)) where
    after_call-listed_after :
        (cs : List (Callback C)) (hs : List ℕ) (c : Callback C)
        → listed [] cs ≡ hs
        → after_call (record { io_intfs = map interface_to hs }) (hp cs) c
          ≡ record { io_intfs = map interface_to (listed_after hs c) }
    after_call-listed_after cs hs (io_state_chg f p n true) e =
        ap (λ l. record { io_intfs = l }) (sym (map-append interface_to hs (p ∷ [])))
    after_call-listed_after cs hs (io_state_chg f p n false) e =
        ap (λ l. record { io_intfs = l })
          (erase_where-without (er (hp cs)) (map interface_to hs) (interface_to p)
            ∙ without-interface_to (hp cs) hs p (subst (AreAlive (hp cs)) e (alive cs)))
    after_call-listed_after cs hs (error_call f p err) e = refl
    after_call-listed_after cs hs bad_function_call e = refl

    AreFollowed-snoc :
        (hs : List ℕ) (n m : ℕ) (cs : List (Callback C)) (c : Callback C)
        → AreFollowed hs n cs
        → AreFollowed (listed_after hs c) m (cs ++ c ∷ [])
    AreFollowed-snoc hs n m cs c v = (
      listed-snoc [] cs c ∙ ap (λ ps. listed_after ps c) v.0,
      follow-snoc [] _ cs c
          ∙ ap (λ s. after_call s (hp cs) c) v.1
          ∙ after_call-listed_after cs hs c v.0,
    )

    AreFollowed-Kept : Kept {C = C} AreFollowed
    AreFollowed-Kept = record {
      accepts = λ hs n cs f v.
          AreFollowed-snoc hs n (suc n) cs (io_state_chg f n (length (hs ++ n ∷ [])) true) v;
      ends = λ hs n cs f g p err v.
          AreFollowed-snoc hs n n (cs ++ error_call g (some p) err ∷ [])
            (io_state_chg f p (length (without ◌==◌ hs p)) false)
            (AreFollowed-snoc hs n n cs (error_call g (some p) err) v);
      errors = λ hs n cs g p err v. AreFollowed-snoc hs n n cs (error_call g p err) v;
    }

    -- Where a handler is not destroyed as long as the calls list it, as a handler of `m_io_handlers`
    -- is not: after any history of a new acceptor, the collection that got its io state changes has
    -- the interfaces of `m_io_handlers`, in order.
    pub follow-interfaces :
        {B E H F : Type 0} ⦃era : EraseWhere ℕ ◌==◌⦄ ⦃b : SharedBuffer B⦄ ⦃h : MsgHdlr H E⦄
        ⦃f : MsgFrame F⦄ (default_endp endp : E) (reuse_addr : Bool) (es : List (Event B E C H F))
        → let a = run (new_tcp_acceptor default_endp endp reuse_addr) es in
          follow [] (record { io_intfs = [] }) a.calls
          ≡ record { io_intfs = map interface_to a.io_handlers }
    follow-interfaces default_endp endp reuse_addr es =
        (run-Kept AreFollowed-Kept (refl, refl) default_endp endp reuse_addr es).1
