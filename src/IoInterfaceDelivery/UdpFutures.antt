-- ===== src/IoInterfaceDelivery/UdpFutures.antt =====
-- A UDP entity of net_ip/detail/udp_entity_io.hpp that is started by
-- `make_udp_io_interface_future_pair` of net_ip/component/io_interface_delivery.hpp, and what the
-- functions do with an entity that is started already.
use chops.Prelude.{ℕ, ◌≡◌, refl, true, false, Option, none, some, List, [], ◌∷◌, ==_refl}
use chops.WeakPtr.{Heap, returns}
use chops.NetEntityCommon
use chops.NetEntityCommon.{io_state_chg}
use chops.BasicNetEntity.{NetEntity}
use chops.UdpEntityIo.{
  Endpoint, UdpEntityIo, UdpCall, callback, new_udp_entity_io, start_io, stop_io, stop, start,
}
use chops.IoCommon
use chops.IoInterfaceDelivery.{IoStateChgData, new_future_pair_func, call_future_pair_func}
use chops.IoInterfaceDelivery.Delivering.{run_pair}
use chops.IoInterfaceDelivery.Starting.{
  IoInterfaceFuturePair, FutureState, waiting, ready, broken_promise,
  make_udp_io_interface_future_pair, make_io_interface_future_pair_impl,
}
use chops.IoInterfaceDelivery.ConnectorFutures.{interface_of, change, states_of, two_futures}

-- The io state changes that a UDP entity tells its callback, among its calls.
abbrev pub udp_changes_of : {B E C H : Type 0} → List (UdpCall B E C H) → List IoStateChgData
udp_changes_of [] = []
udp_changes_of (callback (io_state_chg f p num starting) ∷ cs) =
    change p num starting ∷ udp_changes_of cs
udp_changes_of (_ ∷ cs) = udp_changes_of cs

abbrev pub udp_delivered :
    {B E C H : Type 0}
    → IoInterfaceFuturePair
    → List (UdpCall B E C H)
    → Option (FutureState × FutureState)
udp_delivered futs calls = states_of futs (run_pair new_future_pair_func (udp_changes_of calls))

module _ {B E C H : Type 0} ⦃ep : Endpoint E⦄ where
  -- A new UDP entity that is given to `make_udp_io_interface_future_pair`, where its socket opens, is
  -- started, and the start future has its interface. If its io is started, and then the entity is
  -- stopped, the stop future has the interface too. If the entity is stopped without that, the stop
  -- future still waits; it has the interface once `start_io` and then `stop_io` of the stopped entity
  -- are called.
  pub make_udp_io_interface_future_pair-udp_delivered :
      (hp : Heap (UdpEntityIo B E C H)) (p : ℕ) (local_endp : E) (fs fe : C) (max_size : ℕ) (mh : H)
      → hp p ≡ some (new_udp_entity_io p local_endp)
      → let (made, hp') =
          make_udp_io_interface_future_pair none hp (record { eh_wptr = some p }) fs fe in
        (made ≡ returns two_futures)
        × (u : UdpEntityIo B E C H) × (hp' p ≡ some u)
        × (udp_delivered two_futures u.calls ≡ some (ready (interface_of p), waiting))
        × (udp_delivered two_futures (stop (start_io u max_size mh).1).1.calls
            ≡ some (ready (interface_of p), ready (interface_of p)))
        × (udp_delivered two_futures (stop u).1.calls ≡ some (ready (interface_of p), waiting))
        × (udp_delivered two_futures (stop_io (start_io (stop u).1 max_size mh).1).1.calls
            ≡ some (ready (interface_of p), ready (interface_of p)))
  unfolding make_udp_io_interface_future_pair new_udp_entity_io start start_io stop stop_io run_pair
      call_future_pair_func NetEntityCommon.new_net_entity_common
      NetEntityCommon.call_io_state_chg_cb NetEntityCommon.call_error_cb IoCommon.new_io_common
  make_udp_io_interface_future_pair-udp_delivered hp p local_endp fs fe max_size mh e =
      rw (e, ==_refl p)
        (refl, (start (new_udp_entity_io p local_endp) fs fe none).1, refl, refl, refl, refl, refl)

-- Two futures whose promises were destroyed.
abbrev pub broken_futures : IoInterfaceFuturePair
broken_futures = record {
  start_fut = record { has_promise = false };
  stop_fut = record { has_promise = false };
}

module _ {O S C : Type 0} (entity : NetEntity O S) (args : C → C → S) where
  -- Where the net entity is started already, it is left as it is, and both futures are of a promise
  -- that was destroyed: they give `broken_promise`.
  pub make_io_interface_future_pair_impl-broken :
      (hp : Heap O) (p : ℕ) (o : O) (func err_func : C)
      → hp p ≡ some o
      → entity.is_started o ≡ true
      → let (made, hp') =
          make_io_interface_future_pair_impl entity args hp
            (record { eh_wptr = some p })
            func
            err_func in
        (made ≡ returns broken_futures)
        × (hp' p ≡ some o)
        × (states_of broken_futures (run_pair new_future_pair_func [])
            ≡ some (broken_promise, broken_promise))
  unfolding make_io_interface_future_pair_impl run_pair
  make_io_interface_future_pair_impl-broken hp p o func err_func e on =
      rw (e, on, entity.start-refused o (args func err_func) on, ==_refl p) (refl, refl, refl)
