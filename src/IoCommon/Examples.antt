-- ===== src/IoCommon/Examples.antt =====
-- Instances and tests of the write side.
use chops.Prelude.{ℕ, ◌≤◌, ◌≡◌, refl, none, some, List, [], ◌∷◌, ◌++◌}
use chops.OutputQueue.{SharedBuffer, empty_queue, add_element}
use chops.OutputQueue
use chops.IoCommon.{new_io_common, set_io_started, start_write_setup, get_next_element}
use chops.IoCommon.Writes.{WriteCall, sends, completes, starts, step, run, new_writer, run-in_order}

-- A buffer is the number of its bytes here.
instance abbrev sized : SharedBuffer ℕ
sized = record { size = λ n. n }

abbrev busy : List (WriteCall ℕ ℕ)
busy = sends 9 none ∷ starts ∷ sends 1 none ∷ sends 2 (some 80) ∷ completes ∷ sends 3 none ∷ []

busy_written : (run new_writer busy).written ≡ (1, none) ∷ (2, some 80) ∷ []
unfolding run step new_writer new_io_common empty_queue add_element set_io_started start_write_setup
    get_next_element OutputQueue.get_next_element
busy_written = refl

run-in_order_example :
    let w = run new_writer busy in
    (w.written ++ w.common.outq.output_queue ≡ (1, none) ∷ (2, some 80) ∷ (3, none) ∷ [])
    × (w.outstanding ≤ 1)
run-in_order_example = run-in_order busy
