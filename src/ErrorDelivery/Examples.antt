-- ===== src/ErrorDelivery/Examples.antt =====
-- A wait queue as a list and a flag, and tests of the error sink.
use chops.Prelude.{
  ℕ, ◌≡◌, refl, sym, ap, Bool, true, false, false≢true, Option, none, some, List, [], ◌∷◌, ◌++◌,
  arith, length, ◌%◌, size_mod, ◌==◌, if◌then◌else◌,
}
use chops.NetIpError.{make_error_code, tcp_io_handler_stopped, no_error}
use chops.WeakPtr.{Heap}
use chops.WaitQueue.{WaitQueue, pushes, closes}
use chops.ErrorDelivery.{ErrorData, Formats, flush, ostream_error_sink_with_wait_queue}
use chops.ErrorDelivery.Sinking.{error_lines, ostream_error_sink_with_wait_queue-error_lines}
use chops.ErrorDelivery.Telling.{ErrorCall, tell_all, ostream_error_sink_with_wait_queue-tell_all}
use chops.WaitQueue.ToCome.{to_come}
use chops.WaitQueue.Reading.{Reads}
use chops.WaitQueue.Emptying.{until_closed}

record Queue : Type 0 where
  elements : List (ErrorData ℕ)
  closed : Bool

abbrev push : Bool → Queue → ErrorData ℕ → Bool × Queue
push true q a = (false, q)
push false q a = (true, record q { elements = q.elements ++ a ∷ [] })

abbrev pop : Queue → List (ErrorData ℕ) → Option (Option (ErrorData ℕ) × Queue)
pop q (a ∷ xs) = some (some a, record q { elements = xs })
pop q [] = if q.closed then some (none, q) else none

push-elements :
    (c : Bool) (xs : List (ErrorData ℕ)) (a : ErrorData ℕ)
    → c ≡ false
    → (push c (record { elements = xs; closed = c }) a).1.elements ≡ xs ++ a ∷ []
push-elements false xs a e = refl
push-elements true xs a e = absurd (false≢true (sym e))

push-refused :
    (c : Bool) (xs : List (ErrorData ℕ)) (a : ErrorData ℕ)
    → c ≡ true
    → (push c (record { elements = xs; closed = c }) a).1.elements ≡ xs
push-refused true xs a e = refl
push-refused false xs a e = absurd (false≢true e)

push-closed :
    (c : Bool) (xs : List (ErrorData ℕ)) (a : ErrorData ℕ)
    → (push c (record { elements = xs; closed = c }) a).1.closed ≡ c
push-closed true xs a = refl
push-closed false xs a = refl

abbrev popped : Option (Option (ErrorData ℕ) × Queue) → List (ErrorData ℕ)
popped (some (some a, q)) = a ∷ q.elements
popped _ = []

abbrev closed_of : Bool → Option (Option (ErrorData ℕ) × Queue) → Bool
closed_of c (some (some a, q)) = q.closed
closed_of c _ = c

pop-waits :
    (c : Bool) (xs : List (ErrorData ℕ))
    → pop (record { elements = xs; closed = c }) xs ≡ none
    → (c ≡ false) × (xs ≡ [])
pop-waits false [] e = (refl, refl)
pop-waits true [] e = cc e
pop-waits c (a ∷ xs) e = cc e

pop-oldest :
    (c : Bool) (xs : List (ErrorData ℕ)) (q' : Queue) (a : ErrorData ℕ)
    → pop (record { elements = xs; closed = c }) xs ≡ some (some a, q')
    → (xs ≡ a ∷ q'.elements) × (q'.closed ≡ c)
pop-oldest true [] q' a e = cc e
pop-oldest false [] q' a e = cc e
pop-oldest c (x ∷ xs) q' a e = (ap popped e, sym (ap (closed_of c) e))

pop-closed :
    (c : Bool) (xs : List (ErrorData ℕ)) (q' : Queue)
    → pop (record { elements = xs; closed = c }) xs ≡ some (none, q')
    → (c ≡ true) × (xs ≡ [])
pop-closed true [] q' e = (refl, refl)
pop-closed false [] q' e = cc e
pop-closed c (x ∷ xs) q' e = cc e

instance abbrev queue : WaitQueue Queue (ErrorData ℕ)
queue = record {
  emplace_push = λ q. push q.closed q;
  close = λ q. record q { closed = true };
  wait_and_pop = λ q. pop q q.elements;
  waiting = λ q. q.elements;
  is_closed = λ q. q.closed;
  push-waiting = λ q. push-elements q.closed q.elements;
  push-is_closed = λ q. push-closed q.closed q.elements;
  push-refused = λ q. push-refused q.closed q.elements;
  close-is_closed = λ q. refl;
  close-waiting = λ q. refl;
  pop-waits = λ q. pop-waits q.closed q.elements;
  pop-oldest = λ q. pop-oldest q.closed q.elements;
  pop-closed = λ q q' e. (pop-closed q.closed q.elements q' e).0;
}

instance abbrev formats : Formats ℕ
formats = record { to_millis = λ t. t; other_message = λ val. "end of file" }

abbrev empty : Queue
empty = record { elements = []; closed = false }

abbrev at_five : ErrorData ℕ
at_five = record { time_p = 5; io_intf_ptr = some 3; err = make_error_code tcp_io_handler_stopped }

-- Two errors are pushed, one of them while the sink waits, and the queue is closed later.
abbrev at_six : ErrorData ℕ
at_six = record { time_p = 6; io_intf_ptr = none; err = no_error }

ostream_error_sink_with_wait_queue-error_lines_example :
    let ws = [] ∷ (pushes at_five ∷ pushes at_six ∷ []) ∷ (closes ∷ []) ∷ [] in
    (printed : List (ErrorData ℕ)) × (at_end : Queue) × Reads ws empty printed at_end
    × (to_come ws empty ≡ printed ++ at_end.elements)
    × (ostream_error_sink_with_wait_queue 9 ws empty []
        ≡ some (length printed % size_mod, error_lines printed ++ flush ∷ []))
ostream_error_sink_with_wait_queue-error_lines_example =
    ostream_error_sink_with_wait_queue-error_lines 9
      ([] ∷ (pushes at_five ∷ pushes at_six ∷ []) ∷ (closes ∷ []) ∷ []) empty [] refl (omega arith)

-- An error of the handler at the address 3, and one of a handler that is gone.
abbrev handlers : Heap ℕ
handlers p = if p == 3 then some 0 else none

abbrev two_calls : List (ErrorCall ℕ)
two_calls =
    record {
      now = 5;
      io = record { ioh_wptr = some 3 };
      code = make_error_code tcp_io_handler_stopped;
    }
    ∷ record { now = 8; io = record { ioh_wptr = some 4 }; code = no_error }
    ∷ []

-- A third error is pushed while the sink runs.
ostream_error_sink_with_wait_queue-tell_all_example :
    let errors =
      at_five ∷ record { time_p = 8; io_intf_ptr = none; err = no_error } ∷ at_six ∷ [] in
    ostream_error_sink_with_wait_queue {T = ℕ} 10
      (until_closed ([] ∷ (at_six ∷ []) ∷ []) 3)
      (tell_all handlers empty two_calls)
      []
    ≡ some (3, error_lines errors ++ flush ∷ [])
ostream_error_sink_with_wait_queue-tell_all_example =
    ostream_error_sink_with_wait_queue-tell_all handlers 10 empty two_calls
      ([] ∷ (at_six ∷ []) ∷ []) [] refl refl (omega arith)
