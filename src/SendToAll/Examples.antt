-- ===== src/SendToAll/Examples.antt =====
-- Instances and tests of the collection of io interfaces, with TCP io handlers; a buffer is its size.
use chops.Prelude.{
  ℕ, ◌≡◌, refl, List, true, none, some, [], ◌∷◌, ◌==◌, EraseWhere, erase_equal, if◌then◌else◌,
}
use chops.NetIpError.{make_error_code, weak_ptr_expired, no_error}
use chops.NetEntityCommon
use chops.NetEntityCommon.{Callback, call_error_cb, call_io_state_chg_cb}
use chops.OutputQueue.{SharedBuffer, empty_queue}
use chops.IoCommon.{new_io_common}
use chops.MsgFrame.{NullFrame, null_msg_frame, null_frame}
use chops.TcpIo.{TcpIo, new_tcp_io, TrueHdlr, true_hdlr, true_hdlr_calls}
use chops.TcpIo
use chops.TcpAcceptor.{new_tcp_acceptor, start, handle_accept, handle_calls, notify_me}
use chops.TcpAcceptor.Histories.{Event, starts, accepted, starts_io, stops_io, run, step}
use chops.TcpAcceptor.Listing.{listed}
use chops.WeakPtr.{Heap, returns, throws}
use chops.BasicIoInterface.{BasicIoInterface, equals}
use chops.BasicIoInterface.Handlers.{tcp_handler, tcp_sender}
use chops.SendToAll.{SendToAll, send, get_total_output_queue_stats}
use chops.SendToAll.Sending.{send-throws}
use chops.SendToAll.Totals.{get_total_output_queue_stats-sum, stats_of}
use mathlib.Core.List.Permᴰ.{swap}
use chops.SendToAll.Unordered.{send-Perm}
use chops.SendToAll.Following.{AreAlive, follow}
use chops.TcpAcceptor.Addresses.{is_one_of}
use chops.SendToAll.Reaching.{after, AreAlive-is_one_of, follow-sent}

instance abbrev sized : SharedBuffer ℕ
sized = record { size = λ n. n }

abbrev Handlers : Type 0
Handlers = Heap (TcpIo ℕ ℕ)

-- A handler whose io is started and which is writing.
abbrev handler : TcpIo ℕ ℕ
handler = record {
  is_open = true;
  io_common = record {
    io_started = true;
    write_in_progress = true;
    outq = record { output_queue = []; queue_size = 0; current_num_bytes = 0 };
  };
  remote_endp = 80;
  byte_vec = [];
  read_size = 0;
  delimiter = [];
}

-- One at the address 0.
abbrev handlers : Handlers
handlers p = if p == 0 then some handler else none

abbrev live : BasicIoInterface
live = record { ioh_wptr = some 0 }

abbrev gone : BasicIoInterface
gone = record { ioh_wptr = some 1 }

abbrev two_live : SendToAll
two_live = record { io_intfs = live ∷ live ∷ [] }

instance abbrev erasing : EraseWhere BasicIoInterface (equals handlers)
erasing = erase_equal (equals handlers)

send-throws_example : send tcp_sender handlers (record { io_intfs = live ∷ gone ∷ live ∷ [] }) 5 ≡ (
  throws (make_error_code weak_ptr_expired),
  (send tcp_sender handlers (record { io_intfs = live ∷ [] }) 5).1,
)
send-throws_example = send-throws tcp_sender handlers (live ∷ []) gone (live ∷ []) 5 refl refl

-- Only the handlers of a list exist.
abbrev held : List ℕ → Handlers
held ps q = if is_one_of q ps then some handler else none

-- Another interface.
abbrev other : BasicIoInterface
other = record { ioh_wptr = some 2 }

send-Perm_example :
    let there : SendToAll = record { io_intfs = live ∷ other ∷ [] } in
    let back : SendToAll = record { io_intfs = other ∷ live ∷ [] } in
    (send tcp_sender (held (0 ∷ 2 ∷ [])) there 5 ≡ send tcp_sender (held (0 ∷ 2 ∷ [])) back 5)
    × (get_total_output_queue_stats (held (0 ∷ 2 ∷ [])) there
        ≡ get_total_output_queue_stats (held (0 ∷ 2 ∷ [])) back)
send-Perm_example =
    send-Perm tcp_sender (held (0 ∷ 2 ∷ [])) (record { io_intfs = live ∷ other ∷ [] })
      (record { io_intfs = other ∷ live ∷ [] }) 5 ∣ swap refl refl ∣₁ refl

get_total_output_queue_stats-sum_example :
    get_total_output_queue_stats handlers two_live ≡ some (stats_of handlers (live ∷ live ∷ []) 0 0)
get_total_output_queue_stats-sum_example = get_total_output_queue_stats-sum handlers two_live

held-AreAlive : (ps : List ℕ) → AreAlive (held ps) ps
held-AreAlive ps = AreAlive-is_one_of (held ps) ps (λ q v. rw v refl)

abbrev all_erasing : (h : Handlers) → EraseWhere BasicIoInterface (equals h)
all_erasing h = erase_equal (equals h)

instance abbrev erasing_addresses : EraseWhere ℕ ◌==◌
erasing_addresses = erase_equal ◌==◌

-- Three connections; the io of the second one is started and stopped.
abbrev three_connections : List (Event ℕ ℕ ℕ TrueHdlr NullFrame)
three_connections =
    starts 1 2 none
    ∷ accepted no_error 0
    ∷ accepted no_error 0
    ∷ accepted no_error 0
    ∷ starts_io 1 (no_error, 80) 4 true_hdlr null_msg_frame
    ∷ stops_io 1
    ∷ []

three_connections_handlers :
    (run (new_tcp_acceptor 0 80 true) three_connections).io_handlers ≡ 0 ∷ 2 ∷ []
unfolding run step new_tcp_acceptor start handle_accept handle_calls notify_me TcpIo.start_io
    TcpIo.stop_io TcpIo.close new_tcp_io call_error_cb call_io_state_chg_cb NetEntityCommon.start
    NetEntityCommon.new_net_entity_common empty_queue new_io_common
three_connections_handlers = refl

-- Two handlers are connected; the one at the address 1 is still there.
follow-sent_example :
    let a = run (new_tcp_acceptor 0 80 true) three_connections in
    let s = follow (λ cs. held (listed [] cs)) all_erasing [] (record { io_intfs = [] }) a.calls in
    let r = send tcp_sender (held (0 ∷ 1 ∷ 2 ∷ [])) s 5 in
    (r.0 ≡ returns tt)
    × ((q : ℕ)
        → r.1 q ≡ (
            if is_one_of q a.io_handlers
            then after (λ o. (tcp_sender {B = ℕ} {E = ℕ}).send o 5 none) (held (0 ∷ 1 ∷ 2 ∷ []) q)
            else held (0 ∷ 1 ∷ 2 ∷ []) q))
follow-sent_example =
    follow-sent tcp_sender (λ cs. held (listed [] cs)) all_erasing
      (λ cs. held-AreAlive (listed [] cs)) 0 80 true three_connections (held (0 ∷ 1 ∷ 2 ∷ [])) 5
      (rw three_connections_handlers (refl, (refl, tt)))
