-- ===== src/ErrorDelivery/Telling.antt =====
-- The error function and the sink of net_ip/component/error_delivery.hpp on one wait queue.
use chops.Prelude.{
  ℕ, ◌+◌, ◌*◌, length-append, ◌%◌, ◌<◌, ◌≡◌, sym, ap, ap₂, ◌∙◌, false, some, List, [], ◌∷◌, ◌++◌,
  length, append_assoc, append-nil, arith, size_mod,
}
use chops.NetIpError.{ErrorCode}
use chops.WeakPtr.{Heap}
use chops.BasicIoInterface.{BasicIoInterface, get_shared_ptr}
use chops.WaitQueue.{WaitQueue, all_writes, arriving, closed_after}
use chops.WaitQueue.ToCome.{to_come}
use chops.WaitQueue.Emptying.{
  elements, until_closed, arriving-until_closed, closed_after-until_closed, length-until_closed,
  Reads-until_closed,
}
use chops.ErrorDelivery.{
  ErrorData, Output, Formats, new_error_data, make_error_func_with_wait_queue, flush,
  ostream_error_sink_with_wait_queue,
}
use chops.ErrorDelivery.Sinking.{error_lines, ostream_error_sink_with_wait_queue-to_come}

-- A call of the error function: when, for which interface, and with which code.
pub record ErrorCall (T : Type 0) : Type 0 where
  pub now : T
  pub io : BasicIoInterface
  pub code : ErrorCode

module _ {T O : Type 0} (hp : Heap O) where
  abbrev pub told : List (ErrorCall T) → List (ErrorData T)
  told [] = []
  told (c ∷ cs) = new_error_data c.now (get_shared_ptr hp c.io) c.code ∷ told cs

module _ {Q T O : Type 0} ⦃w : WaitQueue Q (ErrorData T)⦄ (hp : Heap O) where
  abbrev pub tell_all : Q → List (ErrorCall T) → Q
  tell_all wq [] = wq
  tell_all wq (c ∷ cs) = tell_all (make_error_func_with_wait_queue hp c.now wq c.io c.code) cs

  tell_all-is_closed :
      (wq : Q) (cs : List (ErrorCall T))
      → w.is_closed wq ≡ false
      → w.is_closed (tell_all wq cs) ≡ false
  unfolding make_error_func_with_wait_queue
  tell_all-is_closed wq [] e = e
  tell_all-is_closed wq (c ∷ cs) e =
      let d = new_error_data c.now (get_shared_ptr hp c.io) c.code in
      tell_all-is_closed (w.emplace_push wq d).1 cs (w.push-is_closed wq d ∙ e)

  tell_all-told :
      (wq : Q) (cs : List (ErrorCall T))
      → w.is_closed wq ≡ false
      → w.waiting (tell_all wq cs) ≡ w.waiting wq ++ told hp cs
  unfolding make_error_func_with_wait_queue
  tell_all-told wq [] e = sym (append-nil (w.waiting wq))
  tell_all-told wq (c ∷ cs) e =
      let d = new_error_data c.now (get_shared_ptr hp c.io) c.code in
      tell_all-told (w.emplace_push wq d).1 cs (w.push-is_closed wq d ∙ e)
      ∙ ap (λ l. l ++ told hp cs) (w.push-waiting wq d e)
      ∙ append_assoc (w.waiting wq) (d ∷ []) (told hp cs)

module _ {Q T O : Type 0} ⦃w : WaitQueue Q (ErrorData T)⦄ ⦃f : Formats T⦄ (hp : Heap O) where
  -- The error function is called on an open and empty queue; then the sink runs, while other threads push
  -- errors, and the queue is closed once the sink has called `wait_and_pop` as many times more as there
  -- are errors. Then the sink ends within these calls and one more. It writes a line for each error, in
  -- order, with the time of the call and the address of the io handler, if that is still there, and
  -- a flush, and returns the number of errors modulo 2^64.
  pub ostream_error_sink_with_wait_queue-tell_all :
      (fuel : ℕ) (wq : Q) (cs : List (ErrorCall T)) (later : List (List (ErrorData T)))
      (os : List Output)
      → w.is_closed wq ≡ false
      → w.waiting wq ≡ []
      → length later + 2 * length (told hp cs ++ elements later) + 1 < fuel
      → let errors = told hp cs ++ elements later in
        ostream_error_sink_with_wait_queue {T = T} fuel
          (until_closed later (length errors))
          (tell_all hp wq cs)
          os
        ≡ some (length errors % size_mod, (os ++ error_lines errors) ++ flush ∷ [])
  ostream_error_sink_with_wait_queue-tell_all fuel wq cs later os open_yet empty enough =
      let errors = told hp cs ++ elements later in
      let k = length errors in
      let ws = until_closed later k in
      let q = tell_all hp wq cs in
      let still = tell_all-is_closed hp wq cs open_yet in
      let here = tell_all-told hp wq cs open_yet ∙ ap (λ l. l ++ told hp cs) empty in
      let all : to_come ws q ≡ errors =
        ap₂ (λ l c. l ++ arriving c (all_writes ws)) here still
        ∙ ap (λ l. told hp cs ++ l) (arriving-until_closed later k) in
      ostream_error_sink_with_wait_queue-to_come fuel ws q os
        (λ printed at_end reads.
          Reads-until_closed later k q at_end printed still
            (omega (arith, ap length here, length-append (told hp cs) (elements later))) reads)
        (ap (λ c. closed_after c (all_writes ws)) still ∙ closed_after-until_closed later k)
        (omega (arith, ap length all, length-until_closed later k, enough))
      ∙ ap (λ l. some (length l % size_mod, (os ++ error_lines l) ++ flush ∷ [])) all
