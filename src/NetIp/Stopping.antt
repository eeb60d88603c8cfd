-- ===== src/NetIp/Stopping.antt =====
-- `stop_all` of net_ip/net_ip.hpp.
use chops.Prelude.{
  ℕ, ◌≡◌, refl, ◌∙◌, Bool, true, false, ◌||◌, Option, none, some, List, [], ◌∷◌, ◌==◌, ap,
  if◌then◌else◌, Bool-cases, inl, inr, EraseWhere,
}
use chops.WeakPtr.{ptr_eq}
use chops.BasicNetEntity.Entities.{acceptor_stop-stops, connector_stop-stops, udp_stop-stops}
use chops.TcpAcceptor.{update}
use chops.TcpAcceptor
use chops.TcpConnector
use chops.UdpEntityIo.{Endpoint}
use chops.UdpEntityIo
use chops.NetIp.{Entities, NetIp, stop_member, stop_members, stop_all}

-- Whether the object at an address is in a container.
abbrev pub is_member : ℕ → List (Option ℕ) → Bool
is_member q [] = false
is_member q (p ∷ ps) = ptr_eq p (some q) || is_member q ps

or_if :
    (a b x : Bool) → (if b then false else (if a then false else x)) ≡ (if a || b then false else x)
or_if true true x = refl
or_if true false x = refl
or_if false true x = refl
or_if false false x = refl

module _ {O : Type 0} (test : O → Bool) (stop : O → Bool × O)
    (stop_off : (o : O) → test (stop o).1 ≡ false) where
  stop_member-off :
      (s : Entities O) (p : Option ℕ) (q : ℕ)
      → test ((stop_member stop s p).object q)
        ≡ (if ptr_eq p (some q) then false else test (s.object q))
  stop_member-off s none q = refl
  stop_member-off s (some p) q = elim (Bool-cases (p == q)) [
    | inl same ↦ rw same (stop_off (s.object p))
    | inr other ↦ rw other refl
  ]

  stop_members-off :
      (ps : List (Option ℕ)) (s : Entities O) (q : ℕ)
      → test ((stop_members stop s ps).object q)
        ≡ (if is_member q ps then false else test (s.object q))
  stop_members-off [] s q = refl
  stop_members-off (p ∷ ps) s q =
      stop_members-off ps (stop_member stop s p) q
      ∙ ap (λ x. if is_member q ps then false else x) (stop_member-off s p q)
      ∙ or_if (ptr_eq p (some q)) (is_member q ps) (test (s.object q))

module _ {B E C H : Type 0} ⦃ep : Endpoint E⦄ ⦃er : EraseWhere ℕ ◌==◌⦄ where
  -- After `stop_all` no net entity of the three containers is started, and every other one is started
  -- just if it was before.
  pub stop_all-is_member :
      (n : NetIp B E C H) (q : ℕ)
      → let n' = stop_all n in
        ((n'.acceptors.object q).entity_common.started ≡ (
          if is_member q n.acceptors.members
          then false
          else (n.acceptors.object q).entity_common.started))
        × ((n'.connectors.object q).entity_common.started ≡ (
            if is_member q n.connectors.members
            then false
            else (n.connectors.object q).entity_common.started))
        × ((n'.udp_entities.object q).entity_common.started ≡ (
            if is_member q n.udp_entities.members
            then false
            else (n.udp_entities.object q).entity_common.started))
  unfolding stop_all
  stop_all-is_member n q = (
    stop_members-off (λ a. a.entity_common.started) TcpAcceptor.stop
        (λ a. (acceptor_stop-stops a.entity_common.started a).1) n.acceptors.members n.acceptors q,
    stop_members-off (λ c. c.entity_common.started) TcpConnector.stop
        (λ c. (connector_stop-stops c.entity_common.started c.endpoints c.io_handler c).1)
        n.connectors.members n.connectors q,
    stop_members-off (λ u. u.entity_common.started) UdpEntityIo.stop
        (λ u. (udp_stop-stops u.entity_common.started u.io_common.io_started u).1)
        n.udp_entities.members n.udp_entities q,
  )
