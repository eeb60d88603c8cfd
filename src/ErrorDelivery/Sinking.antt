-- ===== src/ErrorDelivery/Sinking.antt =====
-- What the sink of net_ip/component/error_delivery.hpp writes, and that it comes to its end.
use chops.Prelude.{
  ℕ, zero, suc, ◌+◌, ◌%◌, ◌<◌, ◌≡◌, refl, sym, ap, ap₂, ◌∙◌, true, Option, none, some, List, [],
  ◌∷◌, ◌++◌, length, append_assoc, append-nil, arith, inl, inr, Option-cases, add_size, size_mod,
}
use chops.WaitQueue.{
  WaitQueue, Write, first_writes, next_writes, all_writes, arriving, closed_after, write_all,
}
use chops.WaitQueue.Reading.{Reads, ends, waits, gets}
use chops.WaitQueue.ToCome.{
  to_come, will_close, to_come-next, will_close-next, next_shorter, length-next_writes,
}
use chops.ErrorDelivery.{
  ErrorData, Output, Formats, error_line, sink_loop, flushed, flush,
  ostream_error_sink_with_wait_queue,
}

-- The lines of errors, and the count of them in a `std::size_t`.
abbrev pub error_lines : {T : Type 0} ⦃f : Formats T⦄ → List (ErrorData T) → List Output
error_lines [] = []
error_lines (e ∷ es) = error_line e ++ error_lines es

counted : {A : Type 0} → ℕ → List A → ℕ
counted cnt [] = cnt
counted cnt (x ∷ xs) = counted (add_size cnt 1) xs

counted-length :
    {A : Type 0} (cnt : ℕ) (xs : List A)
    → cnt < size_mod
    → counted cnt xs ≡ (cnt + length xs) % size_mod
unfolding counted
counted-length cnt [] h = omega arith
counted-length cnt (x ∷ xs) h = counted-length (add_size cnt 1) xs (omega arith) ∙ omega arith

counted_zero : {A : Type 0} (xs : List A) → counted 0 xs ≡ length xs % size_mod
counted_zero xs = counted-length 0 xs (omega arith) ∙ omega arith

module _ {Q T : Type 0} ⦃w : WaitQueue Q (ErrorData T)⦄ ⦃f : Formats T⦄ where
  -- The loop from the result of a call of `wait_and_pop` on.
  on_pop :
      ℕ
      → List (List (Write (ErrorData T)))
      → Q
      → List Output
      → ℕ
      → Option (Option (ErrorData T) × Q)
      → Option (ℕ × List Output)
  on_pop n ws q os cnt none = sink_loop n ws q os cnt
  on_pop n ws q os cnt (some (none, q')) = some (cnt, os)
  on_pop n ws q os cnt (some (some elem, q')) =
      sink_loop n ws q' (os ++ error_line elem) (add_size cnt 1)

  sink_loop-on_pop :
      (n : ℕ) (ws : List (List (Write (ErrorData T)))) (wq : Q) (os : List Output) (cnt : ℕ)
      (r : Option (Option (ErrorData T) × Q))
      → w.wait_and_pop (write_all wq (first_writes ws)) ≡ r
      → sink_loop (suc n) ws wq os cnt
        ≡ on_pop n (next_writes ws) (write_all wq (first_writes ws)) os cnt r
  unfolding sink_loop on_pop
  sink_loop-on_pop n ws wq os cnt none e = rw (sink_loop, e) refl
  sink_loop-on_pop n ws wq os cnt (some (none, q')) e = rw (sink_loop, e) refl
  sink_loop-on_pop n ws wq os cnt (some (some elem, q')) e = rw (sink_loop, e) refl

  -- How the loop ends: the errors that it printed, those that it left, and the last call of
  -- `wait_and_pop`.
  record Sinks (fuel : ℕ) (ws : List (List (Write (ErrorData T)))) (wq : Q) (os : List Output)
      (cnt : ℕ) : Type 0 where
    printed : List (ErrorData T)
    left : List (ErrorData T)
    all : to_come ws wq ≡ printed ++ left
    result : sink_loop fuel ws wq os cnt ≡ some (counted cnt printed, os ++ error_lines printed)
    at_end : Q
    behind : Q
    reads : Reads ws wq printed at_end
    ended : w.wait_and_pop at_end ≡ some (none, behind)
    still : w.waiting at_end ≡ left

  sink_loop-Sinks :
      (fuel : ℕ) (ws : List (List (Write (ErrorData T)))) (wq : Q) (os : List Output) (cnt : ℕ)
      → will_close ws wq ≡ true
      → length ws + length (to_come ws wq) < fuel
      → Sinks fuel ws wq os cnt
  unfolding on_pop counted
  sink_loop-Sinks zero ws wq os cnt closes enough = absurd (omega arith)
  sink_loop-Sinks (suc fuel) ws wq os cnt closes enough =
      let q = write_all wq (first_writes ws) in
      let same = to_come-next ws wq in
      let closes' = will_close-next ws wq ∙ closes in
      elim (Option-cases (w.wait_and_pop q)) [
        | inl e ↦
            let shorter = next_shorter ws wq (w.pop-waits q e).0 closes in
            let later =
              sink_loop-Sinks fuel (next_writes ws) q os cnt closes'
                (omega (arith, shorter, ap length same)) in
            record {
              printed = later.printed;
              left = later.left;
              all = sym same ∙ later.all;
              result = sink_loop-on_pop fuel ws wq os cnt none e ∙ later.result;
              at_end = later.at_end;
              behind = later.behind;
              reads = waits e later.reads;
              ended = later.ended;
              still = later.still;
            }
        | inr ((none, q'), e) ↦ record {
          printed = [];
          left = w.waiting q;
          all =
              sym same
              ∙ ap (λ c. w.waiting q ++ arriving c (all_writes (next_writes ws)))
                  (w.pop-closed q q' e)
              ∙ append-nil (w.waiting q);
          result =
              sink_loop-on_pop fuel ws wq os cnt (some (none, q')) e
              ∙ ap (λ l. some (cnt, l)) (sym (append-nil os));
          at_end = q;
          behind = q';
          reads = ends e refl;
          ended = e;
          still = refl;
        }
        | inr ((some elem, q'), e) ↦
            let (oldest, open_as) = w.pop-oldest q q' elem e in
            let moved =
              sym same
              ∙ ap₂ (λ l c. l ++ arriving c (all_writes (next_writes ws))) oldest (sym open_as) in
            let fewer = length-next_writes ws in
            let later =
              sink_loop-Sinks fuel (next_writes ws) q' (os ++ error_line elem) (add_size cnt 1)
                (ap (λ c. closed_after c (all_writes (next_writes ws))) open_as ∙ closes')
                (omega (arith, fewer, ap length moved)) in
            record {
              printed = elem ∷ later.printed;
              left = later.left;
              all = moved ∙ ap (λ l. elem ∷ l) later.all;
              result =
                  sink_loop-on_pop fuel ws wq os cnt (some (some elem, q')) e
                  ∙ later.result
                  ∙ ap (λ l. some (counted (add_size cnt 1) later.printed, l))
                      (append_assoc os (error_line elem) (error_lines later.printed));
              at_end = later.at_end;
              behind = later.behind;
              reads = gets e later.reads;
              ended = later.ended;
              still = later.still;
            }
      ]

  -- Where the queue is closed by one of the writes, the sink comes to its end within as many calls of
  -- `wait_and_pop` as there are batches of writes and errors, and one more. It has then written one line
  -- for each error that `wait_and_pop` gave until the first call that gave none, in order, and a flush,
  -- and returns the number of lines modulo 2^64. These errors and those that are still in the queue at
  -- that call are all that were in the queue or were pushed before the close.
  pub ostream_error_sink_with_wait_queue-error_lines :
      (fuel : ℕ) (ws : List (List (Write (ErrorData T)))) (wq : Q) (os : List Output)
      → will_close ws wq ≡ true
      → length ws + length (to_come ws wq) < fuel
      → (printed : List (ErrorData T)) × (at_end : Q) × Reads ws wq printed at_end
        × (to_come ws wq ≡ printed ++ w.waiting at_end)
        × (ostream_error_sink_with_wait_queue fuel ws wq os
            ≡ some (length printed % size_mod, (os ++ error_lines printed) ++ flush ∷ []))
  unfolding ostream_error_sink_with_wait_queue
  ostream_error_sink_with_wait_queue-error_lines fuel ws wq os closes enough =
      let s = sink_loop-Sinks fuel ws wq os 0 closes enough in
      (
        s.printed,
        s.at_end,
        s.reads,
        s.all ∙ ap (λ l. s.printed ++ l) (sym s.still),
        ap flushed s.result
            ∙ ap (λ n. some (n, (os ++ error_lines s.printed) ++ flush ∷ []))
                (counted_zero s.printed),
      )

  -- The same where such reads end with an empty queue: a line is written for each error that is in the
  -- queue or is pushed before the close.
  pub ostream_error_sink_with_wait_queue-to_come :
      (fuel : ℕ) (ws : List (List (Write (ErrorData T)))) (wq : Q) (os : List Output)
      → ((printed : List (ErrorData T)) (at_end : Q)
          → Reads ws wq printed at_end
          → w.waiting at_end ≡ [])
      → will_close ws wq ≡ true
      → length ws + length (to_come ws wq) < fuel
      → ostream_error_sink_with_wait_queue fuel ws wq os
        ≡ some
            (length (to_come ws wq) % size_mod, (os ++ error_lines (to_come ws wq)) ++ flush ∷ [])
  ostream_error_sink_with_wait_queue-to_come fuel ws wq os drains closes enough =
      let (printed, at_end, reads, all, result) =
        ostream_error_sink_with_wait_queue-error_lines fuel ws wq os closes enough in
      let whole = all ∙ ap (λ l. printed ++ l) (drains printed at_end reads) ∙ append-nil printed in
      result ∙ ap (λ l. some (length l % size_mod, (os ++ error_lines l) ++ flush ∷ [])) (sym whole)
