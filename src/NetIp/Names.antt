-- ===== src/NetIp/Names.antt =====
-- The net entities that net_ip/net_ip.hpp makes of an interface and a port, with
-- net_ip/endpoints_resolver.hpp, and starts.
use chops.Prelude.{
  ℕ, ◌≡◌, refl, Bool, true, false, none, some, List, [], ◌∷◌, ◌++◌, ==_refl, if◌then◌else◌,
}
use chops.NetIpError.{ErrorCode}
use chops.WeakPtr.{returns, throws}
use chops.NetEntityCommon
use chops.NetEntityCommon.{io_state_chg}
use chops.UdpEntityIo.{Endpoint, callback, open_socket, start}
use chops.TcpAcceptor
use chops.EndpointsResolver.{
  Query, Resolver, found, failed, passive, address_configured, make_endpoints,
}
use chops.NetIp.{
  NetIp, make_tcp_acceptor, make_udp_unicast, make_tcp_acceptor_endp, make_udp_unicast_endp,
}

-- The query for a local endpoint.
abbrev pub local_query : List ℕ → List ℕ → Query
local_query port intf = record {
  host = intf;
  service = port;
  flags = passive ∷ address_configured ∷ [];
}

module _ {B E C H : Type 0} ⦃ep : Endpoint E⦄ ⦃r : Resolver E⦄ where
  -- Where the resolver finds endpoints for the port and the interface as a local endpoint: a UDP entity
  -- that is made of the two, and started with a socket that opens, opens it at the first of these
  -- endpoints, or, if that equals the endpoint that is constructed by default, without an endpoint; and
  -- it announces itself.
  pub make_udp_unicast-start :
      (n : NetIp B E C H) (port intf : List ℕ) (endp : E) (endps : List E) (fs fe : C)
      → r.answer (local_query port intf) ≡ found endp endps
      → let (made, n') = make_udp_unicast n port intf in
        let p = n.udp_entities.next_address in
        let (started, u) = start (n'.udp_entities.object p) fs fe none in
        (made ≡ returns (record { eh_wptr = some p }))
        × (started ≡ true)
        × (u.calls
            ≡ open_socket (if ep.endp_eq endp ep.default_endp then none else some endp)
              ∷ callback (io_state_chg fs p 1 true)
              ∷ [])
  unfolding make_udp_unicast make_udp_unicast_endp make_endpoints start NetEntityCommon.start
      NetEntityCommon.call_io_state_chg_cb
  make_udp_unicast-start n port intf endp endps fs fe e =
      rw (e, ==_refl n.udp_entities.next_address) (refl, refl, refl)

  -- Where the resolver finds endpoints for the port and the interface: the acceptor that is made of
  -- the two is in the container, behind the others, has the first endpoint, and is not started.
  pub make_tcp_acceptor-found :
      (n : NetIp B E C H) (port intf : List ℕ) (reuse_addr : Bool) (endp : E) (endps : List E)
      → r.answer (local_query port intf) ≡ found endp endps
      → let (made, n') = make_tcp_acceptor n port intf reuse_addr in
        let p = n.acceptors.next_address in
        (made ≡ returns (record { eh_wptr = some p }))
        × (n'.acceptors.members ≡ n.acceptors.members ++ some p ∷ [])
        × ((n'.acceptors.object p).acceptor_endp ≡ endp)
        × ((n'.acceptors.object p).reuse_addr ≡ reuse_addr)
        × (TcpAcceptor.is_started (n'.acceptors.object p) ≡ false)
  unfolding make_tcp_acceptor make_tcp_acceptor_endp make_endpoints TcpAcceptor.is_started
      NetEntityCommon.is_started NetEntityCommon.new_net_entity_common
  make_tcp_acceptor-found n port intf reuse_addr endp endps e =
      rw (e, ==_refl n.acceptors.next_address) (refl, refl, refl, refl, refl)

  -- Where the resolver fails, `make_tcp_acceptor` and `make_udp_unicast` throw its error, and the
  -- `net_ip` object is as before.
  pub make_tcp_acceptor-failed :
      (n : NetIp B E C H) (port intf : List ℕ) (reuse_addr : Bool) (err : ErrorCode)
      → r.answer (local_query port intf) ≡ failed err
      → (make_tcp_acceptor n port intf reuse_addr ≡ (throws err, n))
        × (make_udp_unicast n port intf ≡ (throws err, n))
  unfolding make_tcp_acceptor make_udp_unicast make_endpoints
  make_tcp_acceptor-failed n port intf reuse_addr err e = rw e (refl, refl)
