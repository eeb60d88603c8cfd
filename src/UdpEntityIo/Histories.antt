-- ===== src/UdpEntityIo/Histories.antt =====
-- Whole histories of a UDP entity of net_ip/detail/udp_entity_io.hpp: what the application calls, and
-- the operations that complete.
use chops.Prelude.{ℕ, ◌≡◌, refl, ap, Option, List, [], ◌∷◌, ◌++◌}
use chops.NetIpError.{ErrorCode}
use chops.OutputQueue.{SharedBuffer}
use chops.MsgFrame.{MsgHdlr}
use chops.UdpEntityIo.{
  Endpoint, UdpCall, callback, open_socket, close_socket, async_receive_from, async_send_to,
  UdpEntityIo, start, start_io, start_io_endp, start_io_send_only, start_io_send_only_endp, stop_io,
  stop, send, handle_read, handle_write,
}

-- `opened` and `err` are what the networking library reports.
pub data Event (B E C H : Type 0) : Type 0 where
  starts : (io_state_chg err_cb : C) (opened : Option ErrorCode) → Event B E C H
  starts_io : ℕ → H → Event B E C H
  starts_io_endp : E → ℕ → H → Event B E C H
  starts_io_send_only : Event B E C H
  starts_io_send_only_endp : E → Event B E C H
  stops_io stops : Event B E C H
  sends : B → Option E → Event B E C H
  reads : ErrorCode → ℕ → H → Event B E C H
  writes : ErrorCode → Event B E C H

module _ {B E C H : Type 0} ⦃ep : Endpoint E⦄ ⦃b : SharedBuffer B⦄ ⦃h : MsgHdlr H E⦄ where
  unfoldable pub step : UdpEntityIo B E C H → Event B E C H → UdpEntityIo B E C H
  step u (starts cs ce opened) = (start u cs ce opened).1
  step u (starts_io n mh) = (start_io u n mh).1
  step u (starts_io_endp endp n mh) = (start_io_endp u endp n mh).1
  step u starts_io_send_only = (start_io_send_only u).1
  step u (starts_io_send_only_endp endp) = (start_io_send_only_endp u endp).1
  step u stops_io = (stop_io u).1
  step u stops = (stop u).1
  step u (sends buf endp) = send u buf endp
  step u (reads err n mh) = (handle_read u err n mh).0
  step u (writes err) = handle_write u err

  unfoldable pub run : UdpEntityIo B E C H → List (Event B E C H) → UdpEntityIo B E C H
  run u [] = u
  run u (e ∷ es) = run (step u e) es

module _ {B E C H : Type 0} where
  -- The datagrams that were given to the socket, oldest first, each with its destination.
  abbrev pub datagrams : List (UdpCall B E C H) → List (B × E)
  datagrams [] = []
  datagrams (callback _ ∷ cs) = datagrams cs
  datagrams (open_socket _ ∷ cs) = datagrams cs
  datagrams (close_socket ∷ cs) = datagrams cs
  datagrams (async_receive_from _ _ ∷ cs) = datagrams cs
  datagrams (async_send_to buf endp ∷ cs) = (buf, endp) ∷ datagrams cs

  pub datagrams-append :
      (cs ds : List (UdpCall B E C H)) → datagrams (cs ++ ds) ≡ datagrams cs ++ datagrams ds
  datagrams-append [] ds = refl
  datagrams-append (callback _ ∷ cs) ds = datagrams-append cs ds
  datagrams-append (open_socket _ ∷ cs) ds = datagrams-append cs ds
  datagrams-append (close_socket ∷ cs) ds = datagrams-append cs ds
  datagrams-append (async_receive_from _ _ ∷ cs) ds = datagrams-append cs ds
  datagrams-append (async_send_to buf endp ∷ cs) ds =
      ap (λ l. (buf, endp) ∷ l) (datagrams-append cs ds)
