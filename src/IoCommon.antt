-- ===== src/IoCommon.antt =====
-- net_ip/detail/io_common.hpp: the state that the TCP and the UDP io handlers share. The write side
-- has one write in progress at most; what is sent meanwhile waits in the output queue.
use chops.Prelude.{
  Bool, true, false, not, Option, none, some, List, [], compare_exchange, if◌then◌else◌,
}
use chops.OutputQueue.{
  SharedBuffer, OutputQueue, OutputQueueStats, empty_queue, get_queue_stats, add_element,
}
use chops.OutputQueue
pub mod Writes
pub mod Drain
mod Examples

pub record IoCommon (B E : Type 0) : Type 0 where
  pub io_started : Bool
  pub write_in_progress : Bool
  pub outq : OutputQueue B E

module _ {B E : Type 0} where
  unfoldable pub new_io_common : IoCommon B E
  unfolding empty_queue
  new_io_common = record { io_started = false; write_in_progress = false; outq = empty_queue }

  unfoldable pub get_output_queue_stats : IoCommon B E → OutputQueueStats
  unfolding get_queue_stats
  get_output_queue_stats c = get_queue_stats c.outq

  unfoldable pub set_io_started : IoCommon B E → Bool × IoCommon B E
  set_io_started c =
      let (done, flag) = compare_exchange c.io_started false true in
      (done, record c { io_started = flag })

  unfoldable pub stop : IoCommon B E → Bool × IoCommon B E
  stop c =
      let (done, flag) = compare_exchange c.io_started true false in
      (done, record c { io_started = flag })

abbrev pub has_value {ℓ} : {A : Type ℓ} → Option A → Bool
has_value none = false
has_value (some _) = true

module _ {B E : Type 0} ⦃b : SharedBuffer B⦄ where
  -- Both overloads: a call without an endpoint queues an element without one.
  unfoldable pub start_write_setup : IoCommon B E → B → Option E → Bool × IoCommon B E
  start_write_setup c buf endp =
      if not c.io_started
      then (false, c)
      else if c.write_in_progress
      then (false, record c { outq = add_element c.outq buf endp })
      else (true, record c { write_in_progress = true })

  unfoldable pub get_next_element : IoCommon B E → Option (B × Option E) × IoCommon B E
  get_next_element c =
      if not c.io_started
      then (none, c)
      else let (elem, q) = OutputQueue.get_next_element c.outq in
        (elem, record c { write_in_progress = has_value elem; outq = q })
