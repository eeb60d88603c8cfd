-- ===== src/IoInterfaceDelivery/Starting.antt =====
-- The functions of net_ip/component/io_interface_delivery.hpp that start a net entity with one of its
-- function objects. The entity is given the function object under a name of it, of the type `C`.
use chops.Prelude.{Bool, false, not, Option, none, some, if◌then◌else◌}
use chops.WeakPtr.{Heap, Outcome, returns, throws}
use chops.BasicIoInterface.{BasicIoInterface}
use chops.BasicNetEntity.{BasicNetEntity, NetEntity, is_started, start}
use chops.TcpConnector.{TcpConnector}
use chops.UdpEntityIo.{UdpEntityIo, Endpoint}
use chops.NetIpError.{ErrorCode}
use chops.BasicNetEntity.Entities.{connector_entity, udp_entity}

-- A `std::future`, with whether the promise behind it still exists.
pub record IoInterfaceFuture : Type 0 where
  pub has_promise : Bool

pub record IoInterfaceFuturePair : Type 0 where
  pub start_fut : IoInterfaceFuture
  pub stop_fut : IoInterfaceFuture

-- What a future gives while the promise behind it is set to this, or is not set.
pub data FutureState : Type 0 where
  waiting : FutureState
  ready : BasicIoInterface → FutureState
  broken_promise : FutureState

abbrev pub state_of : IoInterfaceFuture → Option BasicIoInterface → FutureState
state_of f (some io) = ready io
state_of f none = if f.has_promise then waiting else broken_promise

-- An entity keeps the function objects that `start` is given, unless it is started already; then they
-- are destroyed.
abbrev pub keeps : Outcome Bool → Bool
keeps (returns started) = not started
keeps (throws _) = false

-- What comes after `entity.start`, whose result is not looked at.
abbrev pub then_return : {A O : Type 0} → Outcome Bool × Heap O → A → Outcome A × Heap O
then_return (returns _, hp) a = (returns a, hp)
then_return (throws err, hp) a = (throws err, hp)

module _ {O S C : Type 0} (entity : NetEntity O S) (args : C → C → S) where
  unfoldable pub start_with_wait_queue :
      Heap O → BasicNetEntity → C → C → Outcome (Unit {0}) × Heap O
  unfolding start
  start_with_wait_queue hp e func err_func = then_return (start entity hp e (args func err_func)) tt

  unfoldable pub make_io_interface_future_impl :
      Heap O → BasicNetEntity → C → C → Outcome IoInterfaceFuture × Heap O
  unfolding start is_started
  make_io_interface_future_impl hp e func err_func =
      then_return (start entity hp e (args func err_func))
        (record { has_promise = keeps (is_started entity hp e).0 })

  unfoldable pub make_io_interface_future_pair_impl :
      Heap O → BasicNetEntity → C → C → Outcome IoInterfaceFuturePair × Heap O
  unfolding start is_started
  make_io_interface_future_pair_impl hp e func err_func =
      let kept = keeps (is_started entity hp e).0 in
      then_return (start entity hp e (args func err_func)) (record {
        start_fut = record { has_promise = kept };
        stop_fut = record { has_promise = kept };
      })

module _ {B E C : Type 0} where
  unfoldable pub make_tcp_io_interface_future :
      Heap (TcpConnector B E C)
      → BasicNetEntity
      → C
      → C
      → Outcome IoInterfaceFuture × Heap (TcpConnector B E C)
  unfolding make_io_interface_future_impl connector_entity
  make_tcp_io_interface_future =
      make_io_interface_future_impl connector_entity (λ func err_func. (func, err_func))

  unfoldable pub make_tcp_io_interface_future_pair :
      Heap (TcpConnector B E C)
      → BasicNetEntity
      → C
      → C
      → Outcome IoInterfaceFuturePair × Heap (TcpConnector B E C)
  unfolding make_io_interface_future_pair_impl connector_entity
  make_tcp_io_interface_future_pair =
      make_io_interface_future_pair_impl connector_entity (λ func err_func. (func, err_func))

-- `opened` is what `start` of a UDP entity takes of the networking library.
module _ {B E C H : Type 0} ⦃ep : Endpoint E⦄ (opened : Option ErrorCode) where
  unfoldable pub make_udp_io_interface_future :
      Heap (UdpEntityIo B E C H)
      → BasicNetEntity
      → C
      → C
      → Outcome IoInterfaceFuture × Heap (UdpEntityIo B E C H)
  unfolding make_io_interface_future_impl udp_entity
  make_udp_io_interface_future =
      make_io_interface_future_impl udp_entity (λ func err_func. (func, err_func, opened))

  unfoldable pub make_udp_io_interface_future_pair :
      Heap (UdpEntityIo B E C H)
      → BasicNetEntity
      → C
      → C
      → Outcome IoInterfaceFuturePair × Heap (UdpEntityIo B E C H)
  unfolding make_io_interface_future_pair_impl udp_entity
  make_udp_io_interface_future_pair =
      make_io_interface_future_pair_impl udp_entity (λ func err_func. (func, err_func, opened))
