-- ===== src/OutputQueue.antt =====
-- net_ip/detail/output_queue.hpp and net_ip/queue_stats.hpp: the queue of the data that waits to be
-- written, with its two counters. `chops::const_shared_buffer` is not in this repository: a buffer
-- is a parameter with its `size`. The head of the list is the front of the `std::queue`.
use chops.Prelude.{ℕ, Option, none, some, List, [], ◌∷◌, ◌++◌, add_size, sub_size}
pub mod Counters
pub mod Fifo
mod Examples

pub record SharedBuffer (B : Type 0) : Type 0 where
  pub size : B → ℕ

pub record OutputQueueStats : Type 0 where
  pub output_queue_size : ℕ
  pub bytes_in_output_queue : ℕ

pub record OutputQueue (B E : Type 0) : Type 0 where
  pub output_queue : List (B × Option E)
  pub queue_size : ℕ  -- m_queue_size
  pub current_num_bytes : ℕ  -- m_current_num_bytes

module _ {B E : Type 0} where
  unfoldable pub empty_queue : OutputQueue B E
  empty_queue = record { output_queue = []; queue_size = 0; current_num_bytes = 0 }

  unfoldable pub get_queue_stats : OutputQueue B E → OutputQueueStats
  get_queue_stats q = record {
    output_queue_size = q.queue_size;
    bytes_in_output_queue = q.current_num_bytes;
  }

module _ {B E : Type 0} ⦃b : SharedBuffer B⦄ where
  -- The `std::queue::front` and `pop` of `get_next_element`, with the counters.
  unfoldable pub pop_front :
      OutputQueue B E → List (B × Option E) → Option (B × Option E) × OutputQueue B E
  pop_front q [] = (none, q)
  pop_front q (e ∷ rest) = (
    some e,
    record {
      output_queue = rest;
      queue_size = sub_size q.queue_size 1;
      current_num_bytes = sub_size q.current_num_bytes (b.size e.0);
    },
  )

  unfoldable pub get_next_element : OutputQueue B E → Option (B × Option E) × OutputQueue B E
  unfolding pop_front
  get_next_element q = pop_front q q.output_queue

  -- The private `add_element`, which both public ones call.
  unfoldable pub add_element : OutputQueue B E → B → Option E → OutputQueue B E
  add_element q buf endp = record {
    output_queue = q.output_queue ++ (buf, endp) ∷ [];
    queue_size = add_size q.queue_size 1;
    current_num_bytes = add_size q.current_num_bytes (b.size buf);
  }
