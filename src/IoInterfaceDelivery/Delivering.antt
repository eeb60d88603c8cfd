-- ===== src/IoInterfaceDelivery/Delivering.antt =====
-- What the function objects of net_ip/component/io_interface_delivery.hpp deliver over a history of io
-- state changes.
use chops.Prelude.{
  ◌≡◌, refl, ap, ap₂, sym, ◌∙◌, Bool, true, false, Option, none, some, List, [], ◌∷◌, ◌++◌,
  append_assoc, append-nil, if◌then◌else◌,
}
use chops.BasicIoInterface.{BasicIoInterface}
use chops.IoInterfaceDelivery.{
  IoStateChgData, WaitQueueFunc, FuturePairFunc, call_wait_queue_func, call_future_pair_func,
  new_future_pair_func,
}

-- The calls of a history, and, for a future pair, until one throws.
unfoldable pub run_queue : WaitQueueFunc → List IoStateChgData → WaitQueueFunc
run_queue f [] = f
run_queue f (d ∷ ds) = run_queue (call_wait_queue_func f d) ds

abbrev pub next_call :
    Option FuturePairFunc → (FuturePairFunc → Option FuturePairFunc) → Option FuturePairFunc
next_call none rest = none
next_call (some f) rest = rest f

unfoldable pub run_pair : FuturePairFunc → List IoStateChgData → Option FuturePairFunc
run_pair f [] = some f
run_pair f (d ∷ ds) = next_call (call_future_pair_func f d) (λ f'. run_pair f' ds)

-- The changes of a history that start, and those that end.
abbrev pub starts_of : List IoStateChgData → List IoStateChgData
starts_of [] = []
starts_of (d ∷ ds) = if d.starting then d ∷ starts_of ds else starts_of ds

abbrev pub ends_of : List IoStateChgData → List IoStateChgData
ends_of [] = []
ends_of (d ∷ ds) = if d.starting then ends_of ds else d ∷ ends_of ds

-- A promise to which the interfaces of these changes are set, in order.
abbrev pub promised :
    Option BasicIoInterface → List IoStateChgData → Option (Option BasicIoInterface)
promised p [] = some p
promised none (d ∷ []) = some (some d.io_intf)
promised none (_ ∷ _ ∷ _) = none
promised (some _) (_ ∷ _) = none

-- The future pair that a history leaves, where neither promise is set twice.
abbrev pub both_promised :
    Option (Option BasicIoInterface)
    → Option (Option BasicIoInterface)
    → List IoStateChgData
    → Option FuturePairFunc
both_promised none stop ios = none
both_promised (some start) none ios = none
both_promised (some start) (some stop) ios =
    some (record { start_prom = start; stop_prom = stop; ios_calls = ios })

-- One state change before others.
queue_step :
    (starting : Bool) (d : IoStateChgData) (ds : List IoStateChgData) (f : WaitQueueFunc)
    → ((g : WaitQueueFunc)
        → run_queue g ds ≡ record { wq = g.wq ++ ds; ios_calls = g.ios_calls ++ starts_of ds })
    → let e = record d { starting = starting } in
      run_queue f (e ∷ ds)
      ≡ record { wq = f.wq ++ e ∷ ds; ios_calls = f.ios_calls ++ starts_of (e ∷ ds) }
unfolding run_queue call_wait_queue_func
queue_step true d ds f later =
    let e = record d { starting = true } in
    later (call_wait_queue_func f e)
    ∙ ap₂ (λ q c. record { wq = q; ios_calls = c }) (append_assoc f.wq (e ∷ []) ds)
        (append_assoc f.ios_calls (e ∷ []) (starts_of ds))
queue_step false d ds f later =
    let e = record d { starting = false } in
    later (call_wait_queue_func f e)
    ∙ ap (λ q. record { wq = q; ios_calls = f.ios_calls ++ starts_of ds })
        (append_assoc f.wq (e ∷ []) ds)

-- The wait queue gets every state change, in order, and `io_start` is called for those that start.
pub run_queue-starts_of :
    (ds : List IoStateChgData) (f : WaitQueueFunc)
    → run_queue f ds ≡ record { wq = f.wq ++ ds; ios_calls = f.ios_calls ++ starts_of ds }
unfolding run_queue
run_queue-starts_of [] f =
    ap₂ (λ q c. record { wq = q; ios_calls = c }) (sym (append-nil f.wq))
      (sym (append-nil f.ios_calls))
run_queue-starts_of (d ∷ ds) f = queue_step d.starting d ds f (run_queue-starts_of ds)

promised_first :
    (d : IoStateChgData) (ds : List IoStateChgData)
    → promised (some d.io_intf) ds ≡ promised none (d ∷ ds)
promised_first d [] = refl
promised_first d (_ ∷ _) = refl

both_promised-none :
    (p : Option (Option BasicIoInterface)) (ios : List IoStateChgData)
    → none ≡ both_promised p none ios
both_promised-none none ios = refl
both_promised-none (some p) ios = refl

abbrev Promises : List IoStateChgData → Type 0
Promises ds =
    (start stop : Option BasicIoInterface) (ios : List IoStateChgData)
    → run_pair (record { start_prom = start; stop_prom = stop; ios_calls = ios }) ds
      ≡ both_promised (promised start (starts_of ds)) (promised stop (ends_of ds))
          (ios ++ starts_of ds)

pair_step :
    (starting : Bool) (d : IoStateChgData) (ds : List IoStateChgData)
    → Promises ds
    → Promises (record d { starting = starting } ∷ ds)
unfolding run_pair call_future_pair_func
pair_step true d ds later none stop ios =
    let e = record d { starting = true } in
    later (some d.io_intf) stop (ios ++ e ∷ [])
    ∙ ap₂ (λ p l. both_promised p (promised stop (ends_of ds)) l) (promised_first e (starts_of ds))
        (append_assoc ios (e ∷ []) (starts_of ds))
pair_step true d ds later (some p) stop ios = refl
pair_step false d ds later start none ios =
    later start (some d.io_intf) ios
    ∙ ap (λ p. both_promised (promised start (starts_of ds)) p (ios ++ starts_of ds))
        (promised_first (record d { starting = false }) (ends_of ds))
pair_step false d ds later start (some p) ios =
    both_promised-none (promised start (starts_of ds)) (ios ++ starts_of ds)

run_pair_at : (ds : List IoStateChgData) → Promises ds
unfolding run_pair
run_pair_at [] start stop ios =
    ap (λ l. some (record { start_prom = start; stop_prom = stop; ios_calls = l }))
      (sym (append-nil ios))
run_pair_at (d ∷ ds) start stop ios = pair_step d.starting d ds (run_pair_at ds) start stop ios

-- Over a history of state changes of the function object of a future pair as it is made: the first
-- one that starts sets the start promise, and the first that ends the stop promise, to its interface;
-- `io_start` is called for each that starts. With a second one of either kind, a call throws.
pub run_pair-both_promised :
    (ds : List IoStateChgData)
    → run_pair new_future_pair_func ds
      ≡ both_promised (promised none (starts_of ds)) (promised none (ends_of ds)) (starts_of ds)
run_pair-both_promised ds = run_pair_at ds none none []
