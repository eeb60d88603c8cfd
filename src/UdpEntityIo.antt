-- ===== src/UdpEntityIo.antt =====
-- net_ip/detail/udp_entity_io.hpp: a UDP entity, which is its own io handler. A method returns the
-- entity with the calls that it made of the socket and of the application's callbacks added to
-- `calls`, newest last. An asynchronous operation is such a call; its completion handler is a method
-- of its own. What `post` runs later on the executor (the body of `send`) is a method too.
use chops.Prelude.{
  ℕ, Bool, true, false, not, Option, none, some, List, [], ◌∷◌, ◌++◌, length, resize, slice,
  if◌then◌else◌,
}
use chops.NetIpError.{
  ErrorCode, make_error_code, is_error, message_handler_terminated, udp_io_handler_stopped,
  udp_entity_stopped,
}
use chops.OutputQueue.{SharedBuffer, OutputQueueStats}
use chops.IoCommon.{IoCommon, new_io_common, start_write_setup, get_next_element}
use chops.IoCommon
use chops.NetEntityCommon
use chops.NetEntityCommon.{
  NetEntityCommon, Callback, new_net_entity_common, call_io_state_chg_cb, call_error_cb,
}
use chops.MsgFrame.{MsgHdlr}
pub mod Stopping
pub mod Histories
pub mod Sending
pub mod Restart
mod Examples

-- What the program uses of `ip::udp::endpoint`: the endpoint that is constructed by default, and `==`.
pub record Endpoint (E : Type 0) : Type 0 where
  pub default_endp : E
  pub endp_eq : E → E → Bool

-- The calls: of a callback; `open` or the construction of a socket with a local endpoint; `close`;
-- the two asynchronous operations, a receive with the size of its buffer and its message handler.
pub data UdpCall (B E C H : Type 0) : Type 0 where
  callback : Callback C → UdpCall B E C H
  open_socket : Option E → UdpCall B E C H
  close_socket : UdpCall B E C H
  async_receive_from : ℕ → H → UdpCall B E C H
  async_send_to : B → E → UdpCall B E C H

pub record UdpEntityIo (B E C H : Type 0) : Type 0 where
  pub io_common : IoCommon B E
  pub entity_common : NetEntityCommon C
  pub is_open : Bool  -- whether m_socket is open
  pub local_endp : E
  pub default_dest_endp : E
  pub byte_vec : List ℕ
  pub max_size : ℕ
  pub sender_endp : E
  pub self : ℕ  -- the address of the object
  pub calls : List (UdpCall B E C H)

-- The destination of an element of the output queue.
abbrev pub dest : {E : Type 0} → E → Option E → E
dest default none = default
dest default (some endp) = endp

module _ {B E C H : Type 0} where
  abbrev pub call : UdpEntityIo B E C H → UdpCall B E C H → UdpEntityIo B E C H
  call u c = record u { calls = u.calls ++ c ∷ [] }

  unfoldable pub new_udp_entity_io : ⦃ep : Endpoint E⦄ → ℕ → E → UdpEntityIo B E C H
  unfolding new_io_common new_net_entity_common
  new_udp_entity_io ⦃ep⦄ self local_endp = record {
    io_common = new_io_common;
    entity_common = new_net_entity_common;
    is_open = false;
    local_endp = local_endp;
    default_dest_endp = ep.default_endp;
    byte_vec = [];
    max_size = 0;
    sender_endp = ep.default_endp;
    self = self;
    calls = [];
  }

  unfoldable pub is_started : UdpEntityIo B E C H → Bool
  unfolding NetEntityCommon.is_started
  is_started u = NetEntityCommon.is_started u.entity_common

  unfoldable pub is_io_started : UdpEntityIo B E C H → Bool
  is_io_started u = u.io_common.io_started

  unfoldable pub get_output_queue_stats : UdpEntityIo B E C H → OutputQueueStats
  unfolding IoCommon.get_output_queue_stats
  get_output_queue_stats u = IoCommon.get_output_queue_stats u.io_common

  abbrev pub err_notify : UdpEntityIo B E C H → ErrorCode → UdpEntityIo B E C H
  err_notify u err = call u (callback (call_error_cb u.entity_common (some u.self) err))

  abbrev pub state_change : UdpEntityIo B E C H → ℕ → Bool → UdpEntityIo B E C H
  state_change u sz starting =
      call u (callback (call_io_state_chg_cb u.entity_common u.self sz starting))

  unfoldable pub stop_io : UdpEntityIo B E C H → Bool × UdpEntityIo B E C H
  unfolding IoCommon.stop
  stop_io u =
      let (stopped, c) = IoCommon.stop u.io_common in
      let u0 = record u { io_common = c } in
      if not stopped
      then (false, u0)
      else let u1 = call (record u0 { is_open = false }) close_socket in
        (true, state_change (err_notify u1 (make_error_code udp_io_handler_stopped)) 0 false)

  unfoldable pub stop : UdpEntityIo B E C H → Bool × UdpEntityIo B E C H
  unfolding NetEntityCommon.stop stop_io
  stop u =
      let (stopped, c) = NetEntityCommon.stop u.entity_common in
      let u0 = record u { entity_common = c } in
      if not stopped
      then (false, u0)
      else (true, err_notify (stop_io u0).1 (make_error_code udp_entity_stopped))

  -- `opened` is the error code that opening the socket, or its construction, throws, if any.
  unfoldable pub start :
      ⦃ep : Endpoint E⦄
      → UdpEntityIo B E C H
      → C
      → C
      → Option ErrorCode
      → Bool × UdpEntityIo B E C H
  unfolding NetEntityCommon.start stop
  start ⦃ep⦄ u io_state_chg err_cb opened =
      let (started, c) = NetEntityCommon.start u.entity_common io_state_chg err_cb in
      let u0 = record u { entity_common = c } in
      if not started
      then (false, u0)
      else let where_to =
          if ep.endp_eq u.local_endp ep.default_endp then none else some u.local_endp in
        elim opened [
          | none ↦ (
            true,
            state_change (call (record u0 { is_open = true }) (open_socket where_to)) 1 true,
          )
          | some code ↦ (false, (stop (err_notify u0 code)).1)
        ]

  abbrev pub start_read : UdpEntityIo B E C H → H → UdpEntityIo B E C H
  start_read u mh =
      call (record u { byte_vec = resize u.max_size u.byte_vec }) (async_receive_from u.max_size mh)

  -- `start_io(max_size, msg_handler)`.
  unfoldable pub start_io : UdpEntityIo B E C H → ℕ → H → Bool × UdpEntityIo B E C H
  unfolding IoCommon.set_io_started
  start_io u max_size mh =
      let (started, c) = IoCommon.set_io_started u.io_common in
      let u0 = record u { io_common = c } in
      if not started then (false, u0) else (true, start_read (record u0 { max_size = max_size }) mh)

  -- `start_io(endp, max_size, msg_handler)`.
  unfoldable pub start_io_endp : UdpEntityIo B E C H → E → ℕ → H → Bool × UdpEntityIo B E C H
  unfolding IoCommon.set_io_started
  start_io_endp u endp max_size mh =
      let (started, c) = IoCommon.set_io_started u.io_common in
      let u0 = record u { io_common = c } in
      if not started
      then (false, u0)
      else (true, start_read (record u0 { max_size = max_size; default_dest_endp = endp }) mh)

  -- `start_io()`.
  unfoldable pub start_io_send_only : UdpEntityIo B E C H → Bool × UdpEntityIo B E C H
  unfolding IoCommon.set_io_started
  start_io_send_only u =
      let (started, c) = IoCommon.set_io_started u.io_common in
      (started, record u { io_common = c })

  -- `start_io(endp)`.
  unfoldable pub start_io_send_only_endp : UdpEntityIo B E C H → E → Bool × UdpEntityIo B E C H
  unfolding IoCommon.set_io_started
  start_io_send_only_endp u endp =
      let (started, c) = IoCommon.set_io_started u.io_common in
      let u0 = record u { io_common = c } in
      if not started then (false, u0) else (true, record u0 { default_dest_endp = endp })

  -- The completion handler of a receive: `num_bytes` bytes stand in `m_byte_vec` and their sender in
  -- `m_sender_endp`. The message handler is returned too, as its call left it.
  unfoldable pub handle_read :
      ⦃h : MsgHdlr H E⦄ → UdpEntityIo B E C H → ErrorCode → ℕ → H → UdpEntityIo B E C H × H
  unfolding stop
  handle_read ⦃h⦄ u err num_bytes mh =
      if is_error err
      then ((stop (err_notify u err)).1, mh)
      else let (more, mh') = h.call_hdlr mh (slice 0 num_bytes u.byte_vec) u.sender_endp in
        if not more
        then ((stop (err_notify u (make_error_code message_handler_terminated))).1, mh')
        else (start_read u mh', mh')

module _ {B E C H : Type 0} ⦃b : SharedBuffer B⦄ where
  -- What both overloads of `send` post; without an endpoint the default destination is used.
  unfoldable pub send : UdpEntityIo B E C H → B → Option E → UdpEntityIo B E C H
  send u buf endp =
      let (start, c) = start_write_setup u.io_common buf endp in
      let u0 = record u { io_common = c } in
      if start then call u0 (async_send_to buf (dest u.default_dest_endp endp)) else u0

  -- The write of an element of the output queue, if there is one.
  abbrev pub write_next : UdpEntityIo B E C H → Option (B × Option E) → UdpEntityIo B E C H
  write_next u none = u
  write_next u (some elem) = call u (async_send_to elem.0 (dest u.default_dest_endp elem.1))

  unfoldable pub handle_write : UdpEntityIo B E C H → ErrorCode → UdpEntityIo B E C H
  unfolding stop
  handle_write u err =
      if is_error err
      then (stop (err_notify u err)).1
      else let (elem, c) = get_next_element u.io_common in
        write_next (record u { io_common = c }) elem
