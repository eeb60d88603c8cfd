-- ===== src/IoInterfaceDelivery.antt =====
-- net_ip/component/io_interface_delivery.hpp: the function objects for io state changes that deliver io
-- interfaces through a wait queue, and through promises. A call of a function object gives the object
-- as the call leaves it, or none where it throws.
use chops.Prelude.{ℕ, Bool, true, false, Option, none, some, List, [], ◌∷◌, ◌++◌, if◌then◌else◌}
use chops.BasicIoInterface.{BasicIoInterface}
pub mod Delivering
pub mod Starting
pub mod ConnectorFutures
pub mod UdpFutures
mod Examples

-- The three arguments of an io state change.
pub record IoStateChgData : Type 0 where
  pub io_intf : BasicIoInterface
  pub num_handlers : ℕ
  pub starting : Bool

-- `std::promise::set_value`: a second one throws a `std::future_error`.
abbrev pub set_value : Option BasicIoInterface → BasicIoInterface → Option (Option BasicIoInterface)
set_value none io = some (some io)
set_value (some _) io = none

-- The function object of `start_with_wait_queue`. `wq` is what was pushed, and `ios_calls` are the
-- calls of the application's `io_start`, both newest last.
pub record WaitQueueFunc : Type 0 where
  pub wq : List IoStateChgData
  pub ios_calls : List IoStateChgData

unfoldable pub call_wait_queue_func : WaitQueueFunc → IoStateChgData → WaitQueueFunc
call_wait_queue_func f d =
    let f0 = if d.starting then record f { ios_calls = f.ios_calls ++ d ∷ [] } else f in
    record f0 { wq = f0.wq ++ d ∷ [] }

-- The function object of `make_io_interface_future_impl`.
pub record FutureFunc : Type 0 where
  pub start_prom : Option BasicIoInterface
  pub ios_calls : List IoStateChgData

-- The function object after the promise was set, if that did not throw.
abbrev pub with_start_prom : FutureFunc → Option (Option BasicIoInterface) → Option FutureFunc
with_start_prom f none = none
with_start_prom f (some p) = some (record f { start_prom = p })

unfoldable pub call_future_func : FutureFunc → IoStateChgData → Option FutureFunc
call_future_func f d =
    if d.starting
    then with_start_prom (record f { ios_calls = f.ios_calls ++ d ∷ [] })
        (set_value f.start_prom d.io_intf)
    else some f

-- The function object of `make_io_interface_future_pair_impl`.
pub record FuturePairFunc : Type 0 where
  pub start_prom : Option BasicIoInterface
  pub stop_prom : Option BasicIoInterface
  pub ios_calls : List IoStateChgData

abbrev pub pair_with_start :
    FuturePairFunc → Option (Option BasicIoInterface) → Option FuturePairFunc
pair_with_start f none = none
pair_with_start f (some p) = some (record f { start_prom = p })

abbrev pub pair_with_stop :
    FuturePairFunc → Option (Option BasicIoInterface) → Option FuturePairFunc
pair_with_stop f none = none
pair_with_stop f (some p) = some (record f { stop_prom = p })

unfoldable pub call_future_pair_func : FuturePairFunc → IoStateChgData → Option FuturePairFunc
call_future_pair_func f d =
    if d.starting
    then pair_with_start (record f { ios_calls = f.ios_calls ++ d ∷ [] })
        (set_value f.start_prom d.io_intf)
    else pair_with_stop f (set_value f.stop_prom d.io_intf)

-- As `entity.start` is given them.
abbrev pub new_wait_queue_func : WaitQueueFunc
new_wait_queue_func = record { wq = []; ios_calls = [] }

abbrev pub new_future_func : FutureFunc
new_future_func = record { start_prom = none; ios_calls = [] }

abbrev pub new_future_pair_func : FuturePairFunc
new_future_pair_func = record { start_prom = none; stop_prom = none; ios_calls = [] }
