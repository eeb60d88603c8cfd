-- ===== src/NetIp/Examples.antt =====
-- Instances and tests of `net_ip`. A buffer is its size, an endpoint a port with 0 for the one that is
-- constructed by default, a callback a number.
use chops.Prelude.{
  ℕ, ◌≡◌, refl, true, false, none, some, Option, [], ◌∷◌, ◌++◌, ◌==◌, EraseWhere, erase_equal,
}
use chops.TcpIo.{TcpIo, TrueHdlr}
use chops.NetEntityCommon.{NetEntityCommon}
use chops.UdpEntityIo.{Endpoint}
use chops.WeakPtr.{ptr_eq}
use chops.TcpAcceptor.{TcpAcceptor}
use chops.TcpConnector.{TcpConnector}
use chops.UdpEntityIo.{UdpEntityIo}
use chops.NetIp.{NetIp, make_udp_unicast_endp, remove_udp_entity, run_posted, stop_all}
use chops.NetIp.Stopping.{stop_all-is_member}
use chops.NetIp.Removing.{make_udp_unicast_endp-run_posted}
use chops.NetIp.{make_udp_unicast}
use chops.NetIp.Names.{make_udp_unicast-start}
use chops.EndpointsResolver.{Resolver, found}
use chops.NetEntityCommon.{io_state_chg}
use chops.UdpEntityIo.{callback, open_socket, start}
use chops.WeakPtr.{returns}

instance abbrev ports : Endpoint ℕ
ports = record { default_endp = 0; endp_eq = ◌==◌ }

instance abbrev erasing_pointers : EraseWhere (Option ℕ) ptr_eq
erasing_pointers = erase_equal ptr_eq

instance abbrev erasing_addresses : EraseWhere ℕ ◌==◌
erasing_addresses = erase_equal ◌==◌

abbrev a_handler : TcpIo ℕ ℕ
a_handler = record {
  is_open = true;
  io_common = record {
    io_started = true;
    write_in_progress = false;
    outq = record { output_queue = []; queue_size = 0; current_num_bytes = 0 };
  };
  remote_endp = 80;
  byte_vec = [];
  read_size = 0;
  delimiter = [];
}

abbrev started_common : NetEntityCommon ℕ
started_common = record { started = true; io_state_chg_cb = some 1; error_cb = some 2 }

-- One started entity of each kind, at the address 0.
abbrev acceptor : TcpAcceptor ℕ ℕ ℕ
acceptor = record {
  entity_common = started_common;
  is_open = true;
  io_handlers = 0 ∷ [];
  acceptor_endp = 80;
  reuse_addr = true;
  heap = λ p. a_handler;
  next_address = 1;
  accepts = 1;
  calls = [];
}

abbrev connector : TcpConnector ℕ ℕ ℕ
connector = record {
  entity_common = started_common;
  io_handler = none;
  endpoints = 80 ∷ [];
  reconn_time = 500;
  remote_host = [];
  remote_port = [];
  shutting_down = false;
  heap = λ p. a_handler;
  next_address = 0;
  failed_assert = false;
  calls = [];
}

abbrev udp : UdpEntityIo ℕ ℕ ℕ TrueHdlr
udp = record {
  io_common = a_handler.io_common;
  entity_common = started_common;
  is_open = true;
  local_endp = 80;
  default_dest_endp = 90;
  byte_vec = [];
  max_size = 3;
  sender_endp = 0;
  self = 0;
  calls = [];
}

abbrev running : NetIp ℕ ℕ ℕ TrueHdlr
running = record {
  acceptors = record { members = some 0 ∷ []; object = λ p. acceptor; next_address = 1 };
  connectors = record { members = some 0 ∷ []; object = λ p. connector; next_address = 1 };
  udp_entities = record { members = some 0 ∷ []; object = λ p. udp; next_address = 1 };
  posted = [];
}

stop_all-is_member_example :
    let n' = stop_all running in
    ((n'.acceptors.object 0).entity_common.started ≡ false)
    × ((n'.connectors.object 0).entity_common.started ≡ false)
    × ((n'.udp_entities.object 0).entity_common.started ≡ false)
stop_all-is_member_example = stop_all-is_member running 0

make_udp_unicast_endp-run_posted_example :
    let (e, n') = make_udp_unicast_endp running 81 in
    (run_posted (remove_udp_entity n' e.eh_wptr)).udp_entities.members
    ≡ (some 0 ∷ []) ++ e.eh_wptr ∷ []
make_udp_unicast_endp-run_posted_example = make_udp_unicast_endp-run_posted running 81 refl refl

-- A resolver that finds two endpoints for any name.
instance abbrev two_endpoints : Resolver ℕ
two_endpoints = record { answer = λ q. found 81 (82 ∷ []) }

make_udp_unicast-start_example :
    let (made, n') = make_udp_unicast running (56 ∷ []) [] in
    let (started, u) = start (n'.udp_entities.object 1) 3 4 none in
    (made ≡ returns (record { eh_wptr = some 1 }))
    × (started ≡ true)
    × (u.calls ≡ open_socket (some 81) ∷ callback (io_state_chg 3 1 1 true) ∷ [])
make_udp_unicast-start_example = make_udp_unicast-start running (56 ∷ []) [] 81 (82 ∷ []) 3 4 refl
