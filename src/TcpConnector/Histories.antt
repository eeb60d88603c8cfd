-- ===== src/TcpConnector/Histories.antt =====
-- Whole histories of a TCP connector of net_ip/detail/tcp_connector.hpp and of its io handlers: what
-- the application calls, and the operations that complete.
use chops.Prelude.{ℕ, ◌≡◌, refl, ◌++◌, Option, List, [], ◌∷◌, ltb, if◌then◌else◌}
use chops.NetIpError.{ErrorCode}
use chops.OutputQueue.{SharedBuffer}
use chops.MsgFrame.{MsgHdlr, MsgFrame}
use chops.TcpIo.{TcpIo, TcpEffect}
use chops.TcpIo
use chops.TcpConnector.{
  TcpConnector, after_method, start, stop, handle_resolve, handle_connect, handle_wait,
}

-- The events of a history. `err`, `expires` and `res` are what the networking library reports. The
-- last five are of the io handler at an address.
pub data Event (B E C H F : Type 0) : Type 0 where
  starts : (io_state_chg err_cb : C) → Event B E C H F
  stops : Event B E C H F
  resolved : (err : ErrorCode) (res : List E) → Event B E C H F
  connected : (err : ErrorCode) (expires : Option ErrorCode) (endp : E) → Event B E C H F
  waited : (err : ErrorCode) → Event B E C H F
  starts_io : ℕ → (remote : ErrorCode × E) → ℕ → H → F → Event B E C H F
  stops_io : ℕ → Event B E C H F
  sends : ℕ → B → Event B E C H F
  reads : ℕ → (off len : ℕ) → ErrorCode → H → F → Event B E C H F
  writes : ℕ → ErrorCode → Event B E C H F

module _ {B E C H F : Type 0} ⦃b : SharedBuffer B⦄ ⦃h : MsgHdlr H E⦄ ⦃f : MsgFrame F⦄ where
  -- A method of the io handler at `p`, if there is one at that address.
  abbrev pub on_handler :
      TcpConnector B E C → ℕ → TcpIo B E × List (TcpEffect B H F) → TcpConnector B E C
  on_handler c p r = if ltb p c.next_address then after_method c p r else c

  unfoldable pub step : TcpConnector B E C → Event B E C H F → TcpConnector B E C
  step c (starts cs ce) = (start c cs ce).1
  step c stops = (stop c).1
  step c (resolved err res) = handle_resolve c err res
  step c (connected err expires endp) = handle_connect c err expires endp
  step c (waited err) = handle_wait c err
  step c (starts_io p remote n mh mf) =
      let r = TcpIo.start_io (c.heap p) remote n mh mf in on_handler c p (r.1, r.2)
  step c (stops_io p) =
      let r = TcpIo.stop_io {H = H} {F = F} (c.heap p) in on_handler c p (r.1, r.2)
  step c (sends p buf) = on_handler c p (TcpIo.send (c.heap p) buf)
  step c (reads p off len err mh mf) =
      let r = TcpIo.handle_read (c.heap p) off len err mh mf in on_handler c p (r.0, r.1)
  step c (writes p err) = on_handler c p (TcpIo.handle_write (c.heap p) err)

  unfoldable pub run : TcpConnector B E C → List (Event B E C H F) → TcpConnector B E C
  run c [] = c
  run c (e ∷ es) = run (step c e) es

  pub run-append :
      (c : TcpConnector B E C) (xs ys : List (Event B E C H F))
      → run c (xs ++ ys) ≡ run (run c xs) ys
  unfolding run
  run-append c [] ys = refl
  run-append c (x ∷ xs) ys = run-append (step c x) xs ys
