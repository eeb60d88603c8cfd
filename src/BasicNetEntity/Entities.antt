-- ===== src/BasicNetEntity/Entities.antt =====
-- The three net entities, as net_ip/basic_net_entity.hpp uses them.
use chops.Prelude.{
  ℕ, ◌≡◌, refl, ◌∙◌, ap, Bool, true, false, false≢true, Option, ◌==◌, EraseWhere, none, some, List,
  [], ◌∷◌, Bool-cases, inl, inr,
}
use chops.NetIpError.{ErrorCode}
use chops.TcpAcceptor.{TcpAcceptor}
use chops.TcpAcceptor
use chops.TcpConnector.{TcpConnector}
use chops.TcpConnector
use chops.TcpIo
use chops.UdpEntityIo.{Endpoint, UdpEntityIo}
use chops.UdpEntityIo
use chops.BasicNetEntity.{NetEntity}

module _ {B E C H : Type 0} ⦃ep : Endpoint E⦄ where
  pub udp_stop-stops :
      (started io_started : Bool) (u : UdpEntityIo B E C H)
      → let v = record u {
        entity_common = record u.entity_common { started = started };
        io_common = record u.io_common { io_started = io_started };
      } in
        ((UdpEntityIo.stop v).0 ≡ started) × ((UdpEntityIo.stop v).1.entity_common.started ≡ false)
  unfolding UdpEntityIo.stop
  udp_stop-stops false io_started u = (refl, refl)
  udp_stop-stops true false u = (refl, refl)
  udp_stop-stops true true u = (refl, refl)

  pub udp_start-refused :
      (started : Bool) (u : UdpEntityIo B E C H) (s : C × C × Option ErrorCode)
      → started ≡ true
      → let v = record u { entity_common = record u.entity_common { started = started } } in
        UdpEntityIo.start v s.0 s.1 s.2 ≡ (false, v)
  unfolding UdpEntityIo.start
  udp_start-refused true u s on = refl
  udp_start-refused false u s on = absurd (false≢true on)

  unfoldable pub udp_entity : NetEntity (UdpEntityIo B E C H) (C × C × Option ErrorCode)
  udp_entity = record {
    is_started = λ u. u.entity_common.started;
    start = λ u s. UdpEntityIo.start u s.0 s.1 s.2;
    stop = UdpEntityIo.stop;
    start-refused = λ u. udp_start-refused u.entity_common.started u;
    stop-result = λ u. (udp_stop-stops u.entity_common.started u.io_common.io_started u).0;
    stop-off = λ u. (udp_stop-stops u.entity_common.started u.io_common.io_started u).1;
  }

module _ {B E C : Type 0} where
  pub connector_stop-stops :
      (started : Bool) (endpoints : List E) (iop : Option ℕ) (c : TcpConnector B E C)
      → let v = record c {
        entity_common = record c.entity_common { started = started };
        endpoints = endpoints;
        io_handler = iop;
      } in
        ((TcpConnector.stop v).0 ≡ started)
        × ((TcpConnector.stop v).1.entity_common.started ≡ false)
  unfolding TcpConnector.stop
  connector_stop-stops false endpoints iop c = (refl, refl)
  connector_stop-stops true [] none c = (refl, refl)
  connector_stop-stops true (_ ∷ _) none c = (refl, refl)
  connector_stop-stops true [] (some p) c = elim (Bool-cases (c.heap p).io_common.io_started) [
    | inl live ↦ rw live (refl, refl)
    | inr idle ↦ rw idle (refl, refl)
  ]
  connector_stop-stops true (_ ∷ _) (some p) c = elim (Bool-cases (c.heap p).io_common.io_started) [
    | inl live ↦ rw live (refl, refl)
    | inr idle ↦ rw idle (refl, refl)
  ]

  pub connector_start-refused :
      (started : Bool) (c : TcpConnector B E C) (s : C × C)
      → started ≡ true
      → let v = record c { entity_common = record c.entity_common { started = started } } in
        TcpConnector.start v s.0 s.1 ≡ (false, v)
  unfolding TcpConnector.start
  connector_start-refused true c s on = refl
  connector_start-refused false c s on = absurd (false≢true on)

  unfoldable pub connector_entity : NetEntity (TcpConnector B E C) (C × C)
  connector_entity = record {
    is_started = λ c. c.entity_common.started;
    start = λ c s. TcpConnector.start c s.0 s.1;
    stop = TcpConnector.stop;
    start-refused = λ c. connector_start-refused c.entity_common.started c;
    stop-result = λ c. (connector_stop-stops c.entity_common.started c.endpoints c.io_handler c).0;
    stop-off = λ c. (connector_stop-stops c.entity_common.started c.endpoints c.io_handler c).1;
  }

module _ {B E C : Type 0} ⦃er : EraseWhere ℕ ◌==◌⦄ where
  stop_handlers-entity_common :
      (iops : List ℕ) (a : TcpAcceptor B E C)
      → (TcpAcceptor.stop_handlers a iops).entity_common ≡ a.entity_common
  unfolding TcpAcceptor.stop_handlers TcpAcceptor.stop_handler TcpAcceptor.handle_calls
      TcpAcceptor.notify_me TcpIo.stop_io
  stop_handlers-entity_common [] a = refl
  stop_handlers-entity_common (p ∷ ps) a =
      stop_handlers-entity_common ps (TcpAcceptor.stop_handler a p)
      ∙ elim (Bool-cases (a.heap p).io_common.io_started) [
        | inl live ↦ rw live refl
        | inr idle ↦ rw idle refl
      ]

  pub acceptor_stop-stops :
      (started : Bool) (a : TcpAcceptor B E C)
      → let v = record a { entity_common = record a.entity_common { started = started } } in
        ((TcpAcceptor.stop v).0 ≡ started) × ((TcpAcceptor.stop v).1.entity_common.started ≡ false)
  unfolding TcpAcceptor.stop
  acceptor_stop-stops false a = (refl, refl)
  acceptor_stop-stops true a =
      (refl, ap (λ c. c.started) (stop_handlers-entity_common a.io_handlers _))

  pub acceptor_start-refused :
      (started : Bool) (a : TcpAcceptor B E C) (s : C × C × Option ErrorCode)
      → started ≡ true
      → let v = record a { entity_common = record a.entity_common { started = started } } in
        TcpAcceptor.start v s.0 s.1 s.2 ≡ (false, v)
  unfolding TcpAcceptor.start
  acceptor_start-refused true a s on = refl
  acceptor_start-refused false a s on = absurd (false≢true on)

  unfoldable pub acceptor_entity : NetEntity (TcpAcceptor B E C) (C × C × Option ErrorCode)
  acceptor_entity = record {
    is_started = λ a. a.entity_common.started;
    start = λ a s. TcpAcceptor.start a s.0 s.1 s.2;
    stop = TcpAcceptor.stop;
    start-refused = λ a. acceptor_start-refused a.entity_common.started a;
    stop-result = λ a. (acceptor_stop-stops a.entity_common.started a).0;
    stop-off = λ a. (acceptor_stop-stops a.entity_common.started a).1;
  }
