-- ===== src/TcpAcceptor/Soundness.antt =====
-- Every history of net_ip/detail/tcp_acceptor.hpp keeps its invariant.
use chops.Prelude.{
  some, without, ℕ, Bool, true, false, List, [], ◌∷◌, ◌++◌, ◌==◌, length, EraseWhere,
}
use chops.NetEntityCommon.{Callback, io_state_chg, error_call}
use chops.NetEntityCommon.Calls.{AreSafe, AreSafe-append}
use chops.OutputQueue.{SharedBuffer}
use chops.MsgFrame.{MsgHdlr, MsgFrame}
use chops.TcpAcceptor.Addresses.{
  Distinct, Below, without-Distinct, without-Below, Below-snoc, Distinct-snoc,
}
use chops.TcpAcceptor.{new_tcp_acceptor}
use chops.TcpAcceptor.Histories.{Event, run}
use chops.TcpAcceptor.Ready.{Kept}
use chops.TcpAcceptor.Induction.{run-Kept}

-- No empty callback was called, and the handlers are different objects that exist.
abbrev AreSound : {C : Type 0} → List ℕ → ℕ → List (Callback C) → Type 0
AreSound hs n cs = AreSafe cs × Distinct hs × Below n hs

AreSound-Kept : {C : Type 0} → Kept {C = C} AreSound
AreSound-Kept {C} = record {
  accepts = λ hs n cs f v. (
    AreSafe-append {C = C} cs (io_state_chg f n (length (hs ++ n ∷ [])) true ∷ []) v.0 tt,
    Distinct-snoc n hs v.2 v.1,
    Below-snoc n hs v.2,
  );
  ends = λ hs n cs f g p err v. (
    AreSafe-append {C = C} (cs ++ error_call g (some p) err ∷ [])
        (io_state_chg f p (length (without ◌==◌ hs p)) false ∷ [])
        (AreSafe-append {C = C} cs (error_call g (some p) err ∷ []) v.0 tt) tt,
    without-Distinct hs p v.1,
    without-Below n hs p v.2,
  );
  errors =
      λ hs n cs g p err v. (AreSafe-append {C = C} cs (error_call g p err ∷ []) v.0 tt, v.1, v.2);
}

module _ {B E C H F : Type 0} ⦃er : EraseWhere ℕ ◌==◌⦄ ⦃b : SharedBuffer B⦄ ⦃h : MsgHdlr H E⦄
    ⦃f : MsgFrame F⦄ where
  -- After any history of a new acceptor, no empty callback was called, and `m_io_handlers` holds
  -- different handlers, each of which was created for an accepted connection.
  pub run-AreSafe :
      (default_endp endp : E) (reuse_addr : Bool) (es : List (Event B E C H F))
      → let a = run (new_tcp_acceptor default_endp endp reuse_addr) es in
        AreSafe a.calls × Distinct a.io_handlers × Below a.next_address a.io_handlers
  run-AreSafe = run-Kept AreSound-Kept (tt, tt, tt)
