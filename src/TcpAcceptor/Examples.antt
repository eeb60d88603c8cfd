-- ===== src/TcpAcceptor/Examples.antt =====
-- Instances and tests of the TCP acceptor. A buffer is its size, an endpoint a port, a callback a
-- number; every message is taken, and every read is a message.
use chops.Prelude.{
  ℕ, ◌≡◌, refl, true, false, none, some, List, [], ◌∷◌, ◌++◌, ◌==◌, EraseWhere, erase_equal, arith,
}
use chops.NetIpError.{
  ErrorCode, other, no_error, make_error_code, tcp_io_handler_stopped, tcp_acceptor_stopped,
}
use chops.NetEntityCommon
use chops.NetEntityCommon.{
  NetEntityCommon, Callback, io_state_chg, error_call, call_error_cb, call_io_state_chg_cb,
}
use chops.NetEntityCommon.Calls.{AreSafe}
use chops.OutputQueue.{SharedBuffer, empty_queue}
use chops.IoCommon.{new_io_common}
use chops.MsgFrame.{NullFrame, null_msg_frame, null_frame}
use chops.TcpIo.{TcpIo, new_tcp_io, TrueHdlr, true_hdlr, true_hdlr_calls}
use chops.TcpIo
use chops.TcpAcceptor.Addresses.{Distinct, Below}
use chops.TcpAcceptor.{
  TcpAcceptor, new_tcp_acceptor, stop, start, handle_accept, stop_handlers, stop_handler,
  handle_calls, notify_me,
}
use chops.TcpAcceptor.Stopping.{stop-stop_calls}
use chops.TcpAcceptor.Closing.{close_live}
use chops.TcpAcceptor.Histories.{
  Event, starts, stops, accepted, starts_io, stops_io, reads, run, step,
}
use chops.TcpAcceptor.Soundness.{run-AreSafe}
use chops.TcpAcceptor.Listing.{listed, AreCounted, run-AreCounted}
use chops.TcpAcceptor.Notices.{notices, run-stops_io-reads}

instance abbrev sized : SharedBuffer ℕ
sized = record { size = λ n. n }

instance abbrev erasing : EraseWhere ℕ ◌==◌
erasing = erase_equal ◌==◌

abbrev aborted : ErrorCode
aborted = record { value = 125; category = other }

abbrev History : Type 0
History = List (Event ℕ ℕ ℕ TrueHdlr NullFrame)

-- Two connections; the first one is read, then the acceptor is stopped and the read is aborted.
abbrev two_connections : History
two_connections =
    starts 1 2 none
    ∷ accepted no_error 0
    ∷ accepted no_error 0
    ∷ starts_io 0 (no_error, 80) 4 true_hdlr null_msg_frame
    ∷ stops
    ∷ reads 0 0 4 aborted true_hdlr null_msg_frame
    ∷ []

abbrev acceptor_calls : List (Callback ℕ)
acceptor_calls =
    io_state_chg 1 0 1 true
    ∷ io_state_chg 1 1 2 true
    ∷ error_call 2 (some 0) (make_error_code tcp_io_handler_stopped)
    ∷ io_state_chg 1 0 1 false
    ∷ error_call 2 none (make_error_code tcp_acceptor_stopped)
    ∷ error_call 2 (some 0) aborted
    ∷ io_state_chg 1 0 1 false
    ∷ []

two_connections_calls : (run (new_tcp_acceptor 0 80 true) two_connections).calls ≡ acceptor_calls
unfolding run step new_tcp_acceptor start stop handle_accept stop_handlers stop_handler handle_calls
    notify_me TcpIo.start_io TcpIo.stop_io TcpIo.close TcpIo.handle_read new_tcp_io call_error_cb
    call_io_state_chg_cb NetEntityCommon.start NetEntityCommon.stop
    NetEntityCommon.new_net_entity_common empty_queue new_io_common
two_connections_calls = refl

run-AreSafe_example :
    let a = run (new_tcp_acceptor 0 80 true) two_connections in
    AreSafe a.calls × Distinct a.io_handlers × Below a.next_address a.io_handlers
run-AreSafe_example = run-AreSafe 0 80 true two_connections

run-AreCounted_example :
    let a = run (new_tcp_acceptor 0 80 true) two_connections in
    (listed [] a.calls ≡ a.io_handlers) × AreCounted [] a.calls
run-AreCounted_example = run-AreCounted 0 80 true two_connections

abbrev handler_at : ℕ → TcpIo ℕ ℕ
handler_at p = record {
  is_open = true;
  io_common = record {
    io_started = p == 4;
    write_in_progress = false;
    outq = record { output_queue = []; queue_size = 0; current_num_bytes = 0 };
  };
  remote_endp = 80;
  byte_vec = [];
  read_size = 0;
  delimiter = [];
}

-- Three handlers; the io of the one at address 4 is started.
abbrev serving : TcpAcceptor ℕ ℕ ℕ
serving = record {
  entity_common = record { started = true; io_state_chg_cb = some 1; error_cb = some 2 };
  is_open = true;
  io_handlers = 2 ∷ 4 ∷ 5 ∷ [];
  acceptor_endp = 80;
  reuse_addr = true;
  heap = handler_at;
  next_address = 6;
  accepts = 1;
  calls = [];
}

stop-stop_calls_example :
    let (stopped, a') = stop serving in
    (stopped ≡ true)
    × (a'.entity_common.started ≡ false)
    × (a'.is_open ≡ false)
    × (a'.io_handlers ≡ 2 ∷ 5 ∷ [])
    × ((q : ℕ) → a'.heap q ≡ close_live (λ p. p == 4) (2 ∷ 4 ∷ 5 ∷ []) q (handler_at q))
    × (a'.calls
        ≡ error_call 2 (some 4) (make_error_code tcp_io_handler_stopped)
          ∷ io_state_chg 1 4 2 false
          ∷ error_call 2 none (make_error_code tcp_acceptor_stopped)
          ∷ [])
stop-stop_calls_example = stop-stop_calls serving 1 2 refl refl refl (omega arith)

run-stops_io-reads_example :
    (run serving (stops_io 4 ∷ reads 4 0 1 aborted true_hdlr null_msg_frame ∷ [])).calls
    ≡ [] ++ notices 1 2 4 (make_error_code tcp_io_handler_stopped) 2 ++ notices 1 2 4 aborted 2
run-stops_io-reads_example =
    run-stops_io-reads serving 1 2 4 0 1 aborted true_hdlr null_msg_frame refl refl (omega arith)
      refl refl
