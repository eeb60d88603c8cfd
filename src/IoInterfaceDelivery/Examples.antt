-- ===== src/IoInterfaceDelivery/Examples.antt =====
-- Tests of the delivery of io interfaces.
use chops.Prelude.{◌≡◌, refl, true, false, none, some, [], ◌∷◌}
use chops.BasicIoInterface.{BasicIoInterface}
use chops.IoInterfaceDelivery.{
  IoStateChgData, new_future_pair_func, new_future_func, call_future_func,
}
use chops.IoInterfaceDelivery.Delivering.{run_pair, run_pair-both_promised}
use chops.Prelude.{ℕ, List, ◌++◌, ◌==◌}
use chops.NetIpError.{ErrorCode, other, no_error}
use chops.OutputQueue.{SharedBuffer}
use chops.MsgFrame.{NullFrame, null_msg_frame, null_frame}
use chops.TcpIo
use chops.TcpIo.{async_read, TrueHdlr, true_hdlr, true_hdlr_calls}
use chops.WeakPtr.{Heap, returns}
use chops.TcpConnector.{TcpConnector, new_resolving_connector}
use chops.TcpConnector.Histories.{Event, resolved, starts_io, reads, run}
use chops.TcpConnector.Retrying.{tries}
use chops.UdpEntityIo.{Endpoint, UdpEntityIo, new_udp_entity_io}
use chops.UdpEntityIo
use chops.IoInterfaceDelivery.Starting.{
  waiting, ready, make_tcp_io_interface_future_pair, make_udp_io_interface_future_pair,
}
use chops.IoInterfaceDelivery.ConnectorFutures.{
  interface_of, two_futures, delivered, make_tcp_io_interface_future_pair-delivered,
}
use chops.IoInterfaceDelivery.UdpFutures.{
  udp_delivered, make_udp_io_interface_future_pair-udp_delivered,
}

abbrev interface : BasicIoInterface
interface = record { ioh_wptr = some 3 }

abbrev started : IoStateChgData
started = record { io_intf = interface; num_handlers = 1; starting = true }

abbrev ended : IoStateChgData
ended = record { io_intf = interface; num_handlers = 0; starting = false }

future_once :
    call_future_func new_future_func started
    ≡ some (record { start_prom = some interface; ios_calls = started ∷ [] })
unfolding call_future_func
future_once = refl

-- The second end of a connection throws.
run_pair-both_promised_example : run_pair new_future_pair_func (started ∷ ended ∷ ended ∷ []) ≡ none
run_pair-both_promised_example = run_pair-both_promised (started ∷ ended ∷ ended ∷ [])

instance abbrev buffers : SharedBuffer ℕ
buffers = record { size = λ n. n }

instance abbrev ports : Endpoint ℕ
ports = record { default_endp = 0; endp_eq = ◌==◌ }

abbrev refused : ErrorCode
refused = record { value = 111; category = other }

-- A new connector, and a new UDP entity, at each address.
abbrev connectors : Heap (TcpConnector ℕ ℕ ℕ)
connectors p = some (new_resolving_connector 0 (80 ∷ []) (104 ∷ []) 500)

abbrev udp_entities : Heap (UdpEntityIo ℕ ℕ ℕ TrueHdlr)
udp_entities p = some (new_udp_entity_io p 80)

abbrev peer : ErrorCode × ℕ
peer = (no_error, 81)

abbrev connecting : List (Event ℕ ℕ ℕ TrueHdlr NullFrame)
connecting = resolved no_error (81 ∷ 82 ∷ []) ∷ tries 0 (refused ∷ [])

make_tcp_io_interface_future_pair-delivered_example :
    let (made, hp') =
      make_tcp_io_interface_future_pair connectors (record { eh_wptr = some 5 }) 1 2 in
    (made ≡ returns two_futures)
    × (c : TcpConnector ℕ ℕ ℕ) × (hp' 5 ≡ some c)
    × (delivered two_futures c.calls ≡ some (waiting, waiting))
    × (delivered two_futures (run c connecting).calls ≡ some (ready (interface_of 0), waiting))
    × ((TcpIo.start_io ((run c connecting).heap 0) peer 2 true_hdlr null_msg_frame).2
        ≡ async_read 0 2 true_hdlr null_msg_frame ∷ [])
    × (delivered two_futures
          (run c (
            connecting
            ++ starts_io 0 peer 2 true_hdlr null_msg_frame
              ∷ reads 0 0 2 refused true_hdlr null_msg_frame
              ∷ [])).calls
        ≡ some (ready (interface_of 0), ready (interface_of 0)))
make_tcp_io_interface_future_pair-delivered_example =
    make_tcp_io_interface_future_pair-delivered ℕ TrueHdlr NullFrame connectors 5 (80 ∷ [])
      (104 ∷ []) 500 81 (82 ∷ []) (refused ∷ []) 1 2 0 2 peer refused true_hdlr null_msg_frame refl
      refl refl refl

make_udp_io_interface_future_pair-udp_delivered_example :
    let (made, hp') =
      make_udp_io_interface_future_pair none udp_entities (record { eh_wptr = some 5 }) 1 2 in
    (made ≡ returns two_futures)
    × (u : UdpEntityIo ℕ ℕ ℕ TrueHdlr) × (hp' 5 ≡ some u)
    × (udp_delivered two_futures u.calls ≡ some (ready (interface_of 5), waiting))
    × (udp_delivered two_futures (UdpEntityIo.stop (UdpEntityIo.start_io u 100 true_hdlr).1).1.calls
        ≡ some (ready (interface_of 5), ready (interface_of 5)))
    × (udp_delivered two_futures (UdpEntityIo.stop u).1.calls
        ≡ some (ready (interface_of 5), waiting))
    × (udp_delivered two_futures
          (UdpEntityIo.stop_io
            (UdpEntityIo.start_io (UdpEntityIo.stop u).1 100 true_hdlr).1).1.calls
        ≡ some (ready (interface_of 5), ready (interface_of 5)))
make_udp_io_interface_future_pair-udp_delivered_example =
    make_udp_io_interface_future_pair-udp_delivered udp_entities 5 80 1 2 100 true_hdlr refl
