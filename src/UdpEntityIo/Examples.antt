-- ===== src/UdpEntityIo/Examples.antt =====
-- Instances and tests of the UDP entity. A buffer is its size, an endpoint a port with 0 for the one
-- that is constructed by default, a callback a number; every message is taken.
use chops.Prelude.{ℕ, ◌≡◌, refl, false≢true, sym, true, false, none, some, List, [], ◌∷◌, ◌==◌}
use chops.NetIpError.{
  ErrorCode, other, no_error, make_error_code, udp_io_handler_stopped, udp_entity_stopped,
}
use chops.NetEntityCommon
use chops.NetEntityCommon.{Callback, io_state_chg, error_call, call_error_cb, call_io_state_chg_cb}
use chops.OutputQueue.{SharedBuffer, empty_queue}
use chops.OutputQueue
use chops.IoCommon.{new_io_common, start_write_setup, get_next_element}
use chops.IoCommon
use chops.TcpIo.{TrueHdlr, true_hdlr, true_hdlr_calls}
use chops.UdpEntityIo.{
  Endpoint, UdpEntityIo, UdpCall, callback, open_socket, close_socket, async_receive_from,
  async_send_to, new_udp_entity_io, start, start_io_endp, stop, stop_io, send, handle_write,
}
use chops.UdpEntityIo.Stopping.{stop-after_stop, after_stop}
use chops.UdpEntityIo.Histories.{
  Event, starts, starts_io_endp, stops, sends, writes, run, step, datagrams,
}
use chops.UdpEntityIo.Sending.{sends, completes, run_sends-in_order, all_datagrams, run_sends}
use chops.UdpEntityIo.Restart.{run_stopped-quiet}

instance abbrev sized : SharedBuffer ℕ
sized = record { size = λ n. n }

instance abbrev ports : Endpoint ℕ
ports = record { default_endp = 0; endp_eq = ◌==◌ }

abbrev aborted : ErrorCode
aborted = record { value = 125; category = other }

abbrev Entity : Type 0
Entity = UdpEntityIo ℕ ℕ ℕ TrueHdlr

-- The calls of an entity that is started, reads and sends to port 90, and is stopped.
abbrev session : List (Event ℕ ℕ ℕ TrueHdlr)
session =
    starts 1 2 none
    ∷ starts_io_endp 90 3 true_hdlr
    ∷ sends 5 none
    ∷ sends 6 (some 91)
    ∷ writes no_error
    ∷ stops
    ∷ []

abbrev session_calls : List (UdpCall ℕ ℕ ℕ TrueHdlr)
session_calls =
    open_socket (some 80)
    ∷ callback (io_state_chg 1 7 1 true)
    ∷ async_receive_from 3 true_hdlr
    ∷ async_send_to 5 90
    ∷ async_send_to 6 91
    ∷ close_socket
    ∷ callback (error_call 2 (some 7) (make_error_code udp_io_handler_stopped))
    ∷ callback (io_state_chg 1 7 0 false)
    ∷ callback (error_call 2 (some 7) (make_error_code udp_entity_stopped))
    ∷ []

abbrev new_entity : Entity
unfolding new_udp_entity_io NetEntityCommon.new_net_entity_common new_io_common empty_queue
new_entity = new_udp_entity_io 7 80

whole_session : (run new_entity session).calls ≡ session_calls
unfolding run step new_udp_entity_io start start_io_endp send handle_write stop stop_io
    call_error_cb call_io_state_chg_cb NetEntityCommon.start NetEntityCommon.stop IoCommon.stop
    NetEntityCommon.new_net_entity_common empty_queue new_io_common start_write_setup
    get_next_element OutputQueue.get_next_element OutputQueue.add_element OutputQueue.pop_front
whole_session = refl

-- An entity that sends to port 90 unless told otherwise.
abbrev sending : Entity
sending = record {
  io_common = record {
    io_started = true;
    write_in_progress = true;
    outq = record { output_queue = (4, none) ∷ []; queue_size = 1; current_num_bytes = 4 };
  };
  entity_common = record { started = true; io_state_chg_cb = some 1; error_cb = some 2 };
  is_open = true;
  local_endp = 80;
  default_dest_endp = 90;
  byte_vec = [];
  max_size = 3;
  sender_endp = 0;
  self = 7;
  calls = async_send_to 3 90 ∷ [];
}

stop-after_stop_example : stop sending ≡ after_stop sending 1 2
stop-after_stop_example = stop-after_stop sending 1 2 refl refl

run_sends-in_order_example :
    all_datagrams (run_sends sending (sends 5 (some 91) ∷ completes ∷ sends 6 none ∷ []))
    ≡ (3, 90) ∷ (4, 90) ∷ (5, 91) ∷ (6, 90) ∷ []
run_sends-in_order_example =
    run_sends-in_order (sends 5 (some 91) ∷ completes ∷ sends 6 none ∷ []) sending refl
      (λ idle. absurd (false≢true (sym idle)))

run_stopped-quiet_example :
    datagrams
      (run
        (handle_write (stop sending).1 aborted)
        (starts 1 2 none ∷ starts_io_endp 90 3 true_hdlr ∷ sends 5 none ∷ sends 6 none ∷ [])).calls
    ≡ (3, 90) ∷ []
run_stopped-quiet_example =
    run_stopped-quiet
      (starts 1 2 none ∷ starts_io_endp 90 3 true_hdlr ∷ sends 5 none ∷ sends 6 none ∷ []) sending
      aborted refl refl refl
