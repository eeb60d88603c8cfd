-- ===== src/BasicIoInterface/Handlers.antt =====
-- The io handlers of net_ip/detail/tcp_io.hpp and net_ip/detail/udp_entity_io.hpp, as
-- net_ip/basic_io_interface.hpp uses them.
use chops.Prelude.{◌≡◌, refl, Bool, true, false, Option, none, if◌then◌else◌}
use chops.OutputQueue.{SharedBuffer}
use chops.IoCommon.{IoCommon, start_write_setup}
use chops.MsgFrame.{NullFrame}
use chops.TcpIo.{TcpIo}
use chops.TcpIo
use chops.UdpEntityIo.{UdpEntityIo}
use chops.UdpEntityIo
use chops.BasicIoInterface.{IoHandler, Sender}

module _ {B E : Type 0} where
  -- `stop_io` of a TCP io handler notifies the net entity, which closes the handler.
  abbrev pub tcp_stop_io : TcpIo B E → Bool × TcpIo B E
  tcp_stop_io io =
      let r = TcpIo.stop_io {H = Unit {0}} {F = NullFrame} io in
      (r.0, if r.0 then (TcpIo.close {H = Unit {0}} {F = NullFrame} r.1).0 else r.1)

  pub tcp_stop_io-stops :
      (started : Bool) (io : TcpIo B E)
      → let v = record io { io_common = record io.io_common { io_started = started } } in
        ((tcp_stop_io v).0 ≡ started) × ((tcp_stop_io v).1.io_common.io_started ≡ false)
  unfolding TcpIo.stop_io TcpIo.close
  tcp_stop_io-stops false io = (refl, refl)
  tcp_stop_io-stops true io = (refl, refl)

  instance unfoldable pub tcp_handler : IoHandler (TcpIo B E)
  tcp_handler = record {
    is_io_started = λ io. io.io_common.io_started;
    get_output_queue_stats = TcpIo.get_output_queue_stats;
    stop_io = tcp_stop_io;
    stop_io-result = λ io. (tcp_stop_io-stops io.io_common.io_started io).0;
    stop_io-off = λ io. (tcp_stop_io-stops io.io_common.io_started io).1;
  }

module _ {B E C H : Type 0} where
  pub udp_stop_io-stops :
      (started : Bool) (u : UdpEntityIo B E C H)
      → let v = record u { io_common = record u.io_common { io_started = started } } in
        ((UdpEntityIo.stop_io v).0 ≡ started)
        × ((UdpEntityIo.stop_io v).1.io_common.io_started ≡ false)
  unfolding UdpEntityIo.stop_io
  udp_stop_io-stops false u = (refl, refl)
  udp_stop_io-stops true u = (refl, refl)

  instance unfoldable pub udp_handler : IoHandler (UdpEntityIo B E C H)
  udp_handler = record {
    is_io_started = λ u. u.io_common.io_started;
    get_output_queue_stats = UdpEntityIo.get_output_queue_stats;
    stop_io = UdpEntityIo.stop_io;
    stop_io-result = λ u. (udp_stop_io-stops u.io_common.io_started u).0;
    stop_io-off = λ u. (udp_stop_io-stops u.io_common.io_started u).1;
  }

module _ {B E : Type 0} ⦃b : SharedBuffer B⦄ where
  pub start_write_setup-started :
      (started busy : Bool) (c : IoCommon B E) (buf : B) (endp : Option E)
      → let v = record c { io_started = started; write_in_progress = busy } in
        (start_write_setup v buf endp).1.io_started ≡ started
  unfolding start_write_setup
  start_write_setup-started false busy c buf endp = refl
  start_write_setup-started true true c buf endp = refl
  start_write_setup-started true false c buf endp = refl

  instance unfoldable pub tcp_sender : Sender (TcpIo B E) B E
  unfolding TcpIo.send tcp_handler
  tcp_sender = record {
    send = λ io buf endp. (TcpIo.send {H = Unit {0}} {F = NullFrame} io buf).0;
    send-is_io_started = λ io buf endp.
        start_write_setup-started io.io_common.io_started io.io_common.write_in_progress
          io.io_common buf none;
  }

  pub udp_send-started :
      {C H : Type 0} (started busy : Bool) (u : UdpEntityIo B E C H) (buf : B) (endp : Option E)
      → let v = record u {
        io_common = record u.io_common { io_started = started; write_in_progress = busy };
      } in
        (UdpEntityIo.send v buf endp).io_common.io_started ≡ started
  unfolding UdpEntityIo.send start_write_setup
  udp_send-started false busy u buf endp = refl
  udp_send-started true true u buf endp = refl
  udp_send-started true false u buf endp = refl

  instance unfoldable pub udp_sender : {C H : Type 0} → Sender (UdpEntityIo B E C H) B E
  unfolding UdpEntityIo.send udp_handler
  udp_sender = record {
    send = UdpEntityIo.send;
    send-is_io_started = λ u buf endp.
        udp_send-started u.io_common.io_started u.io_common.write_in_progress u buf endp;
  }
