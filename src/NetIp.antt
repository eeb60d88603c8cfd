-- ===== src/NetIp.antt =====
-- net_ip/net_ip.hpp: the `net_ip` object, which creates the net entities and keeps them. Its mutex makes
-- each method one step; `make_udp_unicast` posts its insertion, which is a step of its own.
use chops.Prelude.{
  ℕ, suc, Bool, true, false, Option, none, some, List, [], ◌∷◌, ◌++◌, ◌==◌, if◌then◌else◌,
  EraseWhere,
}
use chops.TcpAcceptor.{TcpAcceptor, new_tcp_acceptor, update}
use chops.TcpAcceptor
use chops.TcpConnector.{TcpConnector, new_tcp_connector, new_resolving_connector}
use chops.TcpConnector
use chops.UdpEntityIo.{UdpEntityIo, Endpoint, new_udp_entity_io}
use chops.UdpEntityIo
use chops.WeakPtr.{Outcome, returns, throws, ptr_eq}
use chops.BasicNetEntity.{BasicNetEntity, NetEntity}
use chops.EndpointsResolver.{Resolver, make_endpoints}
pub mod Stopping
pub mod Removing
pub mod Names
mod Examples

-- A container of shared pointers, and the objects of its type, at their addresses.
pub record Entities (O : Type 0) : Type 0 where
  pub members : List (Option ℕ)
  pub object : ℕ → O
  pub next_address : ℕ

pub record NetIp (B E C H : Type 0) : Type 0 where
  pub acceptors : Entities (TcpAcceptor B E C)
  pub connectors : Entities (TcpConnector B E C)
  pub udp_entities : Entities (UdpEntityIo B E C H)
  pub posted : List ℕ  -- the UDP entities whose insertion is posted to the executor

module _ {O : Type 0} where
  -- `std::make_shared`.
  abbrev pub make_shared : Entities O → O → ℕ × Entities O
  make_shared s o = (
    s.next_address,
    record s { object = update s.object s.next_address o; next_address = suc s.next_address },
  )

  abbrev pub push_back : Entities O → ℕ → Entities O
  push_back s p = record s { members = s.members ++ some p ∷ [] }

  -- The null pointer is in no container: `net_ip` inserts objects that it made.
  abbrev pub stop_member : (O → Bool × O) → Entities O → Option ℕ → Entities O
  stop_member stop s none = s
  stop_member stop s (some p) = record s { object = update s.object p (stop (s.object p)).1 }

  -- The loop of `stop_all` over one container.
  abbrev pub stop_members : (O → Bool × O) → Entities O → List (Option ℕ) → Entities O
  stop_members stop s [] = s
  stop_members stop s (p ∷ ps) = stop_members stop (stop_member stop s p) ps

-- What is done with the first of the endpoints that `make_endpoints` returns.
abbrev pub with_first : {E S A : Type 0} → Outcome (E × List E) → S → (E → A × S) → Outcome A × S
with_first (throws err) s make = (throws err, s)
with_first (returns (endp, _)) s make = let (e, s') = make endp in (returns e, s')

-- The characters of a `const char*` before its terminating null character.
abbrev pub until_null : List ℕ → List ℕ
until_null [] = []
until_null (c ∷ cs) = if c == 0 then [] else c ∷ until_null cs

module _ {B E C H : Type 0} ⦃ep : Endpoint E⦄ where
  unfoldable pub make_tcp_acceptor_endp : NetIp B E C H → E → Bool → BasicNetEntity × NetIp B E C H
  unfolding new_tcp_acceptor
  make_tcp_acceptor_endp n endp reuse_addr =
      let (p, s) = make_shared n.acceptors (new_tcp_acceptor ep.default_endp endp reuse_addr) in
      (record { eh_wptr = some p }, record n { acceptors = push_back s p })

  -- With a port or service, and an interface: the first endpoint of the resolver.
  unfoldable pub make_tcp_acceptor :
      ⦃r : Resolver E⦄
      → NetIp B E C H
      → List ℕ
      → List ℕ
      → Bool
      → Outcome BasicNetEntity × NetIp B E C H
  unfolding make_tcp_acceptor_endp make_endpoints
  make_tcp_acceptor n local_port_or_service listen_intf reuse_addr =
      with_first (make_endpoints true listen_intf local_port_or_service) n
        (λ endp. make_tcp_acceptor_endp n endp reuse_addr)

  unfoldable pub make_tcp_connector :
      NetIp B E C H → List ℕ → List ℕ → ℕ → BasicNetEntity × NetIp B E C H
  unfolding new_resolving_connector
  make_tcp_connector n remote_port_or_service remote_host reconn_time =
      let (p, s) =
        make_shared n.connectors (
          new_resolving_connector ep.default_endp remote_port_or_service remote_host reconn_time) in
      (record { eh_wptr = some p }, record n { connectors = push_back s p })

  -- `make_tcp_connector` for two `const char*`.
  unfoldable pub make_tcp_connector_chars :
      NetIp B E C H → List ℕ → List ℕ → ℕ → BasicNetEntity × NetIp B E C H
  unfolding make_tcp_connector
  make_tcp_connector_chars n remote_port_or_service remote_host reconn_time =
      make_tcp_connector n (until_null remote_port_or_service) (until_null remote_host) reconn_time

  unfoldable pub make_tcp_connector_endps :
      NetIp B E C H → List E → ℕ → BasicNetEntity × NetIp B E C H
  unfolding new_tcp_connector
  make_tcp_connector_endps n endpoints reconn_time =
      let (p, s) =
        make_shared n.connectors (new_tcp_connector ep.default_endp endpoints reconn_time) in
      (record { eh_wptr = some p }, record n { connectors = push_back s p })

  unfoldable pub make_tcp_connector_endp : NetIp B E C H → E → ℕ → BasicNetEntity × NetIp B E C H
  unfolding make_tcp_connector_endps
  make_tcp_connector_endp n endp reconn_time = make_tcp_connector_endps n (endp ∷ []) reconn_time

  unfoldable pub make_udp_unicast_endp : NetIp B E C H → E → BasicNetEntity × NetIp B E C H
  unfolding new_udp_entity_io
  make_udp_unicast_endp n endp =
      let (p, s) =
        make_shared n.udp_entities (new_udp_entity_io n.udp_entities.next_address endp) in
      (record { eh_wptr = some p }, record n { udp_entities = s; posted = n.posted ++ p ∷ [] })

  -- The function that it posted, as it runs on the executor.
  unfoldable pub run_posted : NetIp B E C H → NetIp B E C H
  run_posted n = elim n.posted [
    | [] ↦ n
    | p ∷ ps ↦ record n { udp_entities = push_back n.udp_entities p; posted = ps }
  ]

  unfoldable pub make_udp_unicast :
      ⦃r : Resolver E⦄ → NetIp B E C H → List ℕ → List ℕ → Outcome BasicNetEntity × NetIp B E C H
  unfolding make_udp_unicast_endp make_endpoints
  make_udp_unicast n local_port_or_service local_intf =
      with_first (make_endpoints true local_intf local_port_or_service) n (make_udp_unicast_endp n)

  unfoldable pub make_udp_sender : NetIp B E C H → BasicNetEntity × NetIp B E C H
  unfolding make_udp_unicast_endp
  make_udp_sender n = make_udp_unicast_endp n ep.default_endp

module _ {B E C H : Type 0} ⦃er : EraseWhere (Option ℕ) ptr_eq⦄ where
  -- The three overloads of `remove`; the net entity object is given by what its `get_shared_ptr` is.
  unfoldable pub remove_acceptor : NetIp B E C H → Option ℕ → NetIp B E C H
  remove_acceptor n acc = record n {
    acceptors = record n.acceptors { members = er.erase_where n.acceptors.members acc };
  }

  unfoldable pub remove_connector : NetIp B E C H → Option ℕ → NetIp B E C H
  remove_connector n conn = record n {
    connectors = record n.connectors { members = er.erase_where n.connectors.members conn };
  }

  unfoldable pub remove_udp_entity : NetIp B E C H → Option ℕ → NetIp B E C H
  remove_udp_entity n udp_ent = record n {
    udp_entities = record n.udp_entities {
      members = er.erase_where n.udp_entities.members udp_ent;
    };
  }

module _ {B E C H : Type 0} where
  unfoldable pub remove_all : NetIp B E C H → NetIp B E C H
  remove_all n = record n {
    udp_entities = record n.udp_entities { members = [] };
    connectors = record n.connectors { members = [] };
    acceptors = record n.acceptors { members = [] };
  }

  unfoldable pub stop_all : ⦃er : EraseWhere ℕ ◌==◌⦄ → NetIp B E C H → NetIp B E C H
  stop_all n = record n {
    udp_entities = stop_members UdpEntityIo.stop n.udp_entities n.udp_entities.members;
    connectors = stop_members TcpConnector.stop n.connectors n.connectors.members;
    acceptors = stop_members TcpAcceptor.stop n.acceptors n.acceptors.members;
  }
