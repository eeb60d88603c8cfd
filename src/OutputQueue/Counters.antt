-- ===== src/OutputQueue/Counters.antt =====
-- The counters `m_queue_size` and `m_current_num_bytes` of net_ip/detail/output_queue.hpp against
-- the contents of the queue. Both are 64-bit numbers that wrap around.
use chops.Prelude.{
  ℕ, ◌+◌, ◌%◌, ◌≡◌, refl, Option, List, [], ◌∷◌, ◌++◌, length, length-append, size_mod, arith,
}
use chops.OutputQueue.{
  SharedBuffer, OutputQueue, empty_queue, get_next_element, pop_front, add_element,
}

module _ {B E : Type 0} ⦃b : SharedBuffer B⦄ where
  -- The bytes of all the buffers in a list of queue elements.
  abbrev pub sum_size : List (B × Option E) → ℕ
  sum_size [] = 0
  sum_size (e ∷ es) = b.size e.0 + sum_size es

  pub sum_size-append :
      (xs ys : List (B × Option E)) → sum_size (xs ++ ys) ≡ sum_size xs + sum_size ys
  sum_size-append [] ys = omega arith
  sum_size-append (x ∷ xs) ys = omega (arith, sum_size-append xs ys)

  -- The counters are the number of elements and of bytes in the queue, modulo 2^64.
  pub record IsCounted (q : OutputQueue B E) : Type 0 where
    pub counts_elements : q.queue_size ≡ length q.output_queue % size_mod
    pub counts_bytes : q.current_num_bytes ≡ sum_size q.output_queue % size_mod

  pub empty_queue-IsCounted : IsCounted empty_queue
  unfolding empty_queue
  empty_queue-IsCounted = record { counts_elements = refl; counts_bytes = refl }

  pub add_element-IsCounted :
      (q : OutputQueue B E) (buf : B) (endp : Option E)
      → IsCounted q
      → IsCounted (add_element q buf endp)
  unfolding add_element
  add_element-IsCounted q buf endp v = record {
    counts_elements = omega (arith, v, length-append q.output_queue ((buf, endp) ∷ []));
    counts_bytes = omega (arith, v, sum_size-append q.output_queue ((buf, endp) ∷ []));
  }

  pop_front-IsCounted :
      (q : OutputQueue B E) (es : List (B × Option E))
      → q.queue_size ≡ length es % size_mod
      → q.current_num_bytes ≡ sum_size es % size_mod
      → q.output_queue ≡ es
      → IsCounted (pop_front q es).1
  unfolding pop_front
  pop_front-IsCounted q [] n s e = record { counts_elements = rw e n; counts_bytes = rw e s }
  pop_front-IsCounted q (x ∷ es) n s e = record {
    counts_elements = omega arith;
    counts_bytes = omega arith;
  }

  pub get_next_element-IsCounted :
      (q : OutputQueue B E) → IsCounted q → IsCounted (get_next_element q).1
  unfolding get_next_element
  get_next_element-IsCounted q v =
      pop_front-IsCounted q q.output_queue v.counts_elements v.counts_bytes refl
