-- ===== src/OutputQueue/Examples.antt =====
-- Instances and tests of the output queue. A buffer is its list of bytes, an endpoint a number.
use chops.Prelude.{ℕ, ◌≡◌, refl, ◌%◌, none, some, List, [], ◌∷◌, length, size_mod}
use chops.OutputQueue.{SharedBuffer, empty_queue, get_queue_stats, get_next_element, add_element}
use chops.OutputQueue.Counters.{sum_size}
use chops.OutputQueue.Fifo.{
  QueueCall, adds, gets, run_list, run_calls, run_calls-run_list, get_queue_stats-run_calls,
}

instance abbrev byte_buffer : SharedBuffer (List ℕ)
byte_buffer = record { size = length }

abbrev some_calls : List (QueueCall (List ℕ) ℕ)
some_calls =
    adds (1 ∷ 2 ∷ []) none ∷ gets ∷ gets ∷ adds (3 ∷ []) (some 7) ∷ adds (4 ∷ []) none ∷ gets ∷ []

some_calls_run : run_calls empty_queue some_calls ≡ (
  some ((1 ∷ 2 ∷ []), none) ∷ none ∷ some ((3 ∷ []), some 7) ∷ [],
  record { output_queue = ((4 ∷ []), none) ∷ []; queue_size = 1; current_num_bytes = 1 },
)
unfolding run_calls empty_queue get_next_element add_element
some_calls_run = refl

run_calls-run_list_example :
    ((run_calls empty_queue some_calls).0 ≡ (run_list [] some_calls).0)
    × ((run_calls empty_queue some_calls).1.output_queue ≡ (run_list [] some_calls).1)
unfolding empty_queue
run_calls-run_list_example = run_calls-run_list empty_queue some_calls

get_queue_stats-run_calls_example :
    let held = (run_list [] some_calls).1 in
    let stats = get_queue_stats (run_calls empty_queue some_calls).1 in
    (stats.output_queue_size ≡ length held % size_mod)
    × (stats.bytes_in_output_queue ≡ sum_size held % size_mod)
get_queue_stats-run_calls_example = get_queue_stats-run_calls some_calls
