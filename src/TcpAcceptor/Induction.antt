-- ===== src/TcpAcceptor/Induction.antt =====
-- Induction over the histories of net_ip/detail/tcp_acceptor.hpp.
use chops.Prelude.{
  ℕ, ◌-◌, inl, inr, Bool, List, [], ◌∷◌, ◌==◌, ltb, ltb→lt, Bool-cases, EraseWhere, arith,
}
use chops.NetEntityCommon.{Callback}
use chops.OutputQueue.{SharedBuffer}
use chops.MsgFrame.{MsgHdlr, MsgFrame}
use chops.TcpIo.{TcpIo, TcpEffect}
use chops.TcpAcceptor.{TcpAcceptor, new_tcp_acceptor}
use chops.TcpAcceptor.Histories.{
  Event, starts, stops, accepted, starts_io, stops_io, sends, reads, writes, on_handler, step, run,
}
use chops.TcpAcceptor.Ready.{
  Kept, IsNew, IsReady, IsSound, stop-IsNew, new_tcp_acceptor-IsNew, stop-IsReady,
  after_method-IsReady, start_at-IsReady, handle_accept-IsReady,
}

module _ {B E C H F : Type 0} ⦃er : EraseWhere ℕ ◌==◌⦄ ⦃b : SharedBuffer B⦄ ⦃h : MsgHdlr H E⦄
    ⦃f : MsgFrame F⦄ where
  on_handler-IsNew :
      (a : TcpAcceptor B E C) (p : ℕ) (r : TcpIo B E × List (TcpEffect B H F))
      → IsNew a
      → IsNew (on_handler a p r)
  on_handler-IsNew a p r v = elim (Bool-cases (ltb p a.next_address)) [
    | inl there ↦ absurd (omega (arith, ltb→lt p a.next_address there, v.no_objects))
    | inr missing ↦ rw missing v
  ]

-- `base` is the property of an acceptor without handlers and calls.
module _ {B E C H F : Type 0} {P : List ℕ → ℕ → List (Callback C) → Type 0} (k : Kept P)
    (base : P [] 0 []) ⦃er : EraseWhere ℕ ◌==◌⦄ ⦃b : SharedBuffer B⦄ ⦃h : MsgHdlr H E⦄
    ⦃f : MsgFrame F⦄ where
  on_handler-IsReady :
      (a : TcpAcceptor B E C) (p : ℕ) (r : TcpIo B E × List (TcpEffect B H F))
      → IsReady P a
      → IsReady P (on_handler a p r)
  on_handler-IsReady a p r v = elim (Bool-cases (ltb p a.next_address)) [
    | inl there ↦ rw there (after_method-IsReady k a p r v)
    | inr missing ↦ rw missing v
  ]

  step-IsSound : (a : TcpAcceptor B E C) (e : Event B E C H F) → IsSound P a → IsSound P (step a e)
  unfolding step
  step-IsSound a (starts cs ce opened) (inl v) = inr (
      start_at-IsReady k a.entity_common.started a cs ce opened
        (rw (v.no_handlers, v.no_objects, v.no_calls) base) (inl v.not_started))
  step-IsSound a (starts cs ce opened) (inr v) =
      inr (start_at-IsReady k a.entity_common.started a cs ce opened v.holds (inr v))
  step-IsSound a stops (inl v) = inl (stop-IsNew a v)
  step-IsSound a stops (inr v) = inr (stop-IsReady k a v)
  step-IsSound a (accepted err endp) (inl v) = elim (Bool-cases (ltb 0 a.accepts)) [
    | inl there ↦ absurd (omega (arith, ltb→lt 0 a.accepts there, v.no_accepts))
    | inr missing ↦ rw missing (inl v)
  ]
  step-IsSound a (accepted err endp) (inr v) = elim (Bool-cases (ltb 0 a.accepts)) [
    | inl there ↦ rw there (
        inr (
          handle_accept-IsReady k (record a { accepts = a.accepts - 1 }) err endp
            (record {
              holds = v.holds;
              state_cb = v.state_cb;
              err_cb = v.err_cb;
              has_io_state_chg = v.has_io_state_chg;
              has_error = v.has_error;
            })))
    | inr missing ↦ rw missing (inr v)
  ]
  step-IsSound a (starts_io p remote n mh mf) (inl v) = inl (on_handler-IsNew a p _ v)
  step-IsSound a (starts_io p remote n mh mf) (inr v) = inr (on_handler-IsReady a p _ v)
  step-IsSound a (stops_io p) (inl v) = inl (on_handler-IsNew a p _ v)
  step-IsSound a (stops_io p) (inr v) = inr (on_handler-IsReady a p _ v)
  step-IsSound a (sends p buf) (inl v) = inl (on_handler-IsNew a p _ v)
  step-IsSound a (sends p buf) (inr v) = inr (on_handler-IsReady a p _ v)
  step-IsSound a (reads p off len err mh mf) (inl v) = inl (on_handler-IsNew a p _ v)
  step-IsSound a (reads p off len err mh mf) (inr v) = inr (on_handler-IsReady a p _ v)
  step-IsSound a (writes p err) (inl v) = inl (on_handler-IsNew a p _ v)
  step-IsSound a (writes p err) (inr v) = inr (on_handler-IsReady a p _ v)

  run-IsSound :
      (es : List (Event B E C H F)) (a : TcpAcceptor B E C) → IsSound P a → IsSound P (run a es)
  unfolding run
  run-IsSound [] a v = v
  run-IsSound (e ∷ es) a v = run-IsSound es (step a e) (step-IsSound a e v)

  -- What is kept holds after any history of a new acceptor.
  pub run-Kept :
      (default_endp endp : E) (reuse_addr : Bool) (es : List (Event B E C H F))
      → let a = run (new_tcp_acceptor default_endp endp reuse_addr) es in
        P a.io_handlers a.next_address a.calls
  run-Kept default_endp endp reuse_addr es =
      elim (run-IsSound es (new_tcp_acceptor default_endp endp reuse_addr)
        (inl (new_tcp_acceptor-IsNew default_endp endp reuse_addr))) [
          | inl v ↦ rw (v.no_handlers, v.no_objects, v.no_calls) base
          | inr v ↦ v.holds
        ]
