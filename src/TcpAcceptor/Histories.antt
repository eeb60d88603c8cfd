-- ===== src/TcpAcceptor/Histories.antt =====
-- Whole histories of a TCP acceptor of net_ip/detail/tcp_acceptor.hpp and of its io handlers: what
-- the application calls, and the operations that complete.
use chops.Prelude.{ℕ, ◌-◌, Option, List, [], ◌∷◌, ◌==◌, ltb, if◌then◌else◌, EraseWhere}
use chops.NetIpError.{ErrorCode}
use chops.OutputQueue.{SharedBuffer}
use chops.MsgFrame.{MsgHdlr, MsgFrame}
use chops.TcpIo.{
  TcpIo, TcpEffect, notify, async_read, async_read_until, async_write, shutdown_socket,
  close_socket,
}
use chops.TcpIo
use chops.TcpAcceptor.{TcpAcceptor, after_method, stop, start, handle_accept}

-- The events of a history. The first three are of the acceptor; `opened` and `err` are what the
-- networking library reports. The others are of the io handler at an address.
pub data Event (B E C H F : Type 0) : Type 0 where
  starts : (io_state_chg err_func : C) (opened : Option ErrorCode) → Event B E C H F
  stops : Event B E C H F
  accepted : (err : ErrorCode) (endp : E) → Event B E C H F
  starts_io : ℕ → (remote : ErrorCode × E) → ℕ → H → F → Event B E C H F
  stops_io : ℕ → Event B E C H F
  sends : ℕ → B → Event B E C H F
  reads : ℕ → (off len : ℕ) → ErrorCode → H → F → Event B E C H F
  writes : ℕ → ErrorCode → Event B E C H F

module _ {B E C H F : Type 0} ⦃er : EraseWhere ℕ ◌==◌⦄ ⦃b : SharedBuffer B⦄ ⦃h : MsgHdlr H E⦄
    ⦃f : MsgFrame F⦄ where
  -- A method of the io handler at `p`, if there is one at that address.
  abbrev pub on_handler :
      TcpAcceptor B E C → ℕ → TcpIo B E × List (TcpEffect B H F) → TcpAcceptor B E C
  on_handler a p r = if ltb p a.next_address then after_method a p r else a

  unfoldable pub step : TcpAcceptor B E C → Event B E C H F → TcpAcceptor B E C
  step a (starts cs ce opened) = (start a cs ce opened).1
  step a stops = (stop a).1
  step a (accepted err endp) =
      if ltb 0 a.accepts then handle_accept (record a { accepts = a.accepts - 1 }) err endp else a
  step a (starts_io p remote n mh mf) =
      let r = TcpIo.start_io (a.heap p) remote n mh mf in on_handler a p (r.1, r.2)
  step a (stops_io p) =
      let r = TcpIo.stop_io {H = H} {F = F} (a.heap p) in on_handler a p (r.1, r.2)
  step a (sends p buf) = on_handler a p (TcpIo.send (a.heap p) buf)
  step a (reads p off len err mh mf) =
      let r = TcpIo.handle_read (a.heap p) off len err mh mf in on_handler a p (r.0, r.1)
  step a (writes p err) = on_handler a p (TcpIo.handle_write (a.heap p) err)

  unfoldable pub run : TcpAcceptor B E C → List (Event B E C H F) → TcpAcceptor B E C
  run a [] = a
  run a (e ∷ es) = run (step a e) es
