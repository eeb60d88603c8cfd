-- ===== src/TcpConnector/Examples.antt =====
-- Instances and tests of the TCP connector. A buffer is its size, an endpoint a port, a callback a
-- number; every message is taken, and every read is a message.
use chops.Prelude.{ℕ, ◌≡◌, refl, true, false, none, some, List, [], ◌∷◌, ◌++◌, arith}
use chops.NetIpError.{
  ErrorCode, other, no_error, make_error_code, tcp_connector_stopped, tcp_io_handler_stopped,
}
use chops.NetEntityCommon
use chops.NetEntityCommon.{io_state_chg, error_call, call_error_cb, call_io_state_chg_cb}
use chops.OutputQueue.{SharedBuffer, empty_queue}
use chops.IoCommon.{new_io_common}
use chops.MsgFrame.{NullFrame, null_msg_frame, null_frame}
use chops.TcpIo.{TcpIo, new_tcp_io, TrueHdlr, true_hdlr, true_hdlr_calls}
use chops.TcpIo
use chops.TcpConnector.{
  TcpConnector, ConnectorCall, callback, make_endpoints, async_connect, async_wait,
  close_connector_socket, new_resolving_connector, is_started, stop, start, handle_resolve,
  handle_connect, handle_calls, notify_me, tell_end, close, new_tcp_connector,
}
use chops.TcpConnector.Stopping.{stop_calls}
use chops.TcpConnector.Histories.{
  Event, starts, stops, resolved, connected, waited, starts_io, stops_io, reads, sends, run, step,
}
use chops.TcpConnector.Retrying.{run-tries-Connects, run_starts-connects, tries, retries, Connects}
use chops.TcpConnector.Lost.{run_reads-stop_calls, run_stops-reads, run_stops-connects, end_calls}
use chops.TcpConnector.Twice.{run_stops_io-end_calls}
use chops.TcpConnector.Cancelled.{run_cancelled-attempts, attempts}

instance abbrev sized : SharedBuffer ℕ
sized = record { size = λ n. n }

abbrev refused : ErrorCode
refused = record { value = 111; category = other }

abbrev aborted : ErrorCode
aborted = record { value = 125; category = other }

abbrev History : Type 0
History = List (Event ℕ ℕ ℕ TrueHdlr NullFrame)

-- A connector that connects to port 80 and waits 500 ms, with one object on its heap.
abbrev waiting : TcpConnector ℕ ℕ ℕ
waiting = record {
  entity_common = record { started = true; io_state_chg_cb = some 1; error_cb = some 2 };
  io_handler = none;
  endpoints = 80 ∷ [];
  reconn_time = 500;
  remote_host = [];
  remote_port = [];
  shutting_down = false;
  heap = λ p. record {
    is_open = true;
    io_common = record {
      io_started = true;
      write_in_progress = false;
      outq = record { output_queue = []; queue_size = 0; current_num_bytes = 0 };
    };
    remote_endp = 80;
    byte_vec = [];
    read_size = 0;
    delimiter = [];
  };
  next_address = 1;
  failed_assert = false;
  calls = [];
}

abbrev connected_connector : TcpConnector ℕ ℕ ℕ
connected_connector = record waiting { io_handler = some 0 }

-- Two refused connects, a connection whose io is started, and the end of the connection.
abbrev session : History
session =
    starts 1 2
    ∷ resolved no_error (80 ∷ [])
    ∷ connected refused none 0
    ∷ waited no_error
    ∷ connected no_error none 0
    ∷ starts_io 0 (no_error, 80) 4 true_hdlr null_msg_frame
    ∷ reads 0 0 4 refused true_hdlr null_msg_frame
    ∷ []

abbrev session_calls : List (ConnectorCall ℕ ℕ)
session_calls =
    make_endpoints (104 ∷ []) (56 ∷ [])
    ∷ async_connect (80 ∷ [])
    ∷ callback (error_call 2 none refused)
    ∷ async_wait 500
    ∷ async_connect (80 ∷ [])
    ∷ callback (io_state_chg 1 0 1 true)
    ∷ callback (error_call 2 (some 0) refused)
    ∷ callback (io_state_chg 1 0 0 false)
    ∷ close_connector_socket
    ∷ callback (error_call 2 none (make_error_code tcp_connector_stopped))
    ∷ []

whole_session :
    (run (new_resolving_connector 0 (56 ∷ []) (104 ∷ []) 500) session).calls ≡ session_calls
unfolding run step new_resolving_connector new_tcp_connector start stop close handle_resolve
    handle_connect handle_calls notify_me tell_end is_started TcpIo.start_io TcpIo.close
    TcpIo.handle_read new_tcp_io call_error_cb call_io_state_chg_cb NetEntityCommon.start
    NetEntityCommon.stop NetEntityCommon.is_started NetEntityCommon.new_net_entity_common
    empty_queue new_io_common
whole_session = refl

run-tries-Connects_example :
    Connects waiting
      (run {H = TrueHdlr} {F = NullFrame} waiting (tries 0 (refused ∷ aborted ∷ [])))
      1
      (retries 2 500 (80 ∷ []) (refused ∷ aborted ∷ []))
run-tries-Connects_example =
    run-tries-Connects ℕ TrueHdlr NullFrame (refused ∷ aborted ∷ []) waiting 1 2 0 refl refl refl
      refl refl

run_starts-connects_example :
    let c =
      run {B = ℕ} {E = ℕ} {C = ℕ} {H = TrueHdlr} {F = NullFrame}
        (new_resolving_connector 0 (56 ∷ []) (104 ∷ []) 500)
        (starts 1 2 ∷ resolved no_error (80 ∷ 81 ∷ []) ∷ tries 0 (refused ∷ [])) in
    (c.io_handler ≡ some 0)
    × (is_started c ≡ true)
    × (c.endpoints ≡ 80 ∷ 81 ∷ [])
    × (c.calls
        ≡ make_endpoints (104 ∷ []) (56 ∷ [])
            ∷ async_connect (80 ∷ 81 ∷ [])
            ∷ retries 2 500 (80 ∷ 81 ∷ []) (refused ∷ [])
          ++ callback (io_state_chg 1 0 1 true) ∷ [])
run_starts-connects_example =
    run_starts-connects ℕ TrueHdlr NullFrame (56 ∷ []) (104 ∷ []) 500 80 (81 ∷ []) (refused ∷ []) 1
      2 0 refl

run_reads-stop_calls_example :
    let c' = run connected_connector (reads 0 0 4 refused true_hdlr null_msg_frame ∷ []) in
    (is_started c' ≡ false)
    × (c'.io_handler ≡ none)
    × (c'.failed_assert ≡ false)
    × (c'.calls ≡ [] ++ end_calls 1 2 0 refused ++ stop_calls (80 ∷ []) (some 0) 2)
run_reads-stop_calls_example =
    run_reads-stop_calls connected_connector 1 2 0 0 4 refused true_hdlr null_msg_frame refl refl
      refl refl (omega arith) refl

run_stops-reads_example :
    let c' = run connected_connector (stops ∷ reads 0 0 4 aborted true_hdlr null_msg_frame ∷ []) in
    (c'.failed_assert ≡ true)
    × (c'.calls ≡ [] ++ stop_calls (80 ∷ []) (some 0) 2 ++ end_calls 1 2 0 aborted)
run_stops-reads_example =
    run_stops-reads connected_connector 1 2 0 0 4 aborted true_hdlr null_msg_frame refl refl refl
      refl (omega arith) refl

run_stops-connects_example :
    let c' =
      run {H = TrueHdlr} {F = NullFrame} waiting
        (stops ∷ waited no_error ∷ connected no_error none 0 ∷ []) in
    (is_started c' ≡ false)
    × (c'.io_handler ≡ some 1)
    × (c'.calls
        ≡ []
          ++ stop_calls (80 ∷ []) none 2
          ++ async_connect (80 ∷ []) ∷ callback (io_state_chg 1 1 1 true) ∷ [])
run_stops-connects_example =
    run_stops-connects ℕ TrueHdlr NullFrame waiting 1 2 0 refl refl refl refl

run_cancelled-attempts_example :
    let stopped_one = record waiting {
      entity_common = record { started = false; io_state_chg_cb = some 1; error_cb = some 2 };
    } in
    let es : History =
      waited aborted
      ∷ reads 0 0 4 aborted true_hdlr null_msg_frame
      ∷ sends 0 7
      ∷ connected aborted none 0
      ∷ [] in
    (is_started (run stopped_one es) ≡ false) × (attempts (run stopped_one es).calls ≡ 0)
unfolding is_started
run_cancelled-attempts_example =
    run_cancelled-attempts
      (waited aborted
        ∷ reads 0 0 4 aborted true_hdlr null_msg_frame
        ∷ sends 0 7
        ∷ connected aborted none 0
        ∷ [])
      (record waiting {
        entity_common = record { started = false; io_state_chg_cb = some 1; error_cb = some 2 };
      })
      refl refl

run_stops_io-end_calls_example :
    let c' =
      run connected_connector (stops_io 0 ∷ reads 0 0 4 aborted true_hdlr null_msg_frame ∷ []) in
    (c'.failed_assert ≡ true)
    × (c'.calls
        ≡ []
          ++ end_calls 1 2 0 (make_error_code tcp_io_handler_stopped)
          ++ stop_calls (80 ∷ []) (some 0) 2
          ++ end_calls 1 2 0 aborted)
run_stops_io-end_calls_example =
    run_stops_io-end_calls connected_connector 1 2 0 0 4 aborted true_hdlr null_msg_frame refl refl
      refl refl (omega arith) refl refl
