-- ===== src/IoCommon/Writes.antt =====
-- The write side of net_ip/detail/io_common.hpp over a whole history, with the writes that its
-- users (tcp_io and udp_entity_io) start: a write starts when `start_write_setup` returns true and
-- when `get_next_element` returns an element, as in their `send` and `handle_write`.
use chops.Prelude.{
  ℕ, zero, suc, ◌≤◌, ◌<◌, ◌≡◌, refl, ap, sym, ◌∙◌, Bool, true, false, Option, none, some, List, [],
  ◌∷◌, ◌++◌, append-nil, append_assoc, arith, if◌then◌else◌,
}
use chops.OutputQueue.{SharedBuffer, add_element}
use chops.OutputQueue
use chops.IoCommon.{
  IoCommon, new_io_common, set_io_started, stop, start_write_setup, get_next_element,
}

-- What happens to an io handler: a buffer is sent, a write completes, `start_io`, `close`.
pub data WriteCall (B E : Type 0) : Type 0 where
  sends : B → Option E → WriteCall B E
  completes starts closes : WriteCall B E

pub record Writer (B E : Type 0) : Type 0 where
  pub common : IoCommon B E
  pub written : List (B × Option E)  -- the writes that were started, oldest first
  pub outstanding : ℕ  -- those of them that have not completed

module _ {B E : Type 0} ⦃b : SharedBuffer B⦄ where
  -- A write is started for the element that there is, if any.
  abbrev pub start_write : Writer B E → Option (B × Option E) → Writer B E
  start_write w none = w
  start_write w (some x) = record w {
    written = w.written ++ x ∷ [];
    outstanding = suc w.outstanding;
  }

  -- Without an outstanding write there is nothing that could complete.
  unfoldable pub step : Writer B E → WriteCall B E → Writer B E
  step w (sends buf endp) =
      let (start, c) = start_write_setup w.common buf endp in
      start_write (record w { common = c }) (if start then some (buf, endp) else none)
  step w completes = elim w.outstanding [
    | zero ↦ w
    | suc n ↦
        let (elem, c) = get_next_element w.common in
        start_write (record w { common = c; outstanding = n }) elem
  ]
  step w starts = record w { common = (set_io_started w.common).1 }
  step w closes = record w { common = (stop w.common).1 }

  unfoldable pub run : Writer B E → List (WriteCall B E) → Writer B E
  run w [] = w
  run w (c ∷ cs) = run (step w c) cs

  unfoldable pub new_writer : Writer B E
  new_writer = record { common = new_io_common; written = []; outstanding = 0 }

  -- The buffers that are sent while the io handler is started: all others are dropped.
  abbrev pub accepted : Bool → List (WriteCall B E) → List (B × Option E)
  accepted started [] = []
  accepted true (sends buf endp ∷ cs) = (buf, endp) ∷ accepted true cs
  accepted false (sends buf endp ∷ cs) = accepted false cs
  accepted started (completes ∷ cs) = accepted started cs
  accepted started (starts ∷ cs) = accepted true cs
  accepted started (closes ∷ cs) = accepted false cs

  -- The writes that were started and then the queue.
  abbrev pub history : Writer B E → List (B × Option E)
  history w = w.written ++ w.common.outq.output_queue

  -- No write is started beside another one, and the queue is empty while none is in progress.
  pub record IsSerial (w : Writer B E) : Type 0 where
    pub one_write : w.outstanding ≤ 1
    pub in_progress : 0 < w.outstanding → w.common.write_in_progress ≡ true
    pub idle_queue : w.common.write_in_progress ≡ false → w.common.outq.output_queue ≡ []

  -- How one call changes the history.
  abbrev sent : Bool → WriteCall B E → List (B × Option E)
  sent true (sends buf endp) = (buf, endp) ∷ []
  sent _ _ = []

  pub step-IsSerial : (w : Writer B E) (c : WriteCall B E) → IsSerial w → IsSerial (step w c)
  unfolding step start_write_setup get_next_element set_io_started stop OutputQueue.get_next_element
  step-IsSerial w (sends buf endp) v = ground arith
  step-IsSerial w completes v = ground arith
  step-IsSerial w starts v = ground arith
  step-IsSerial w closes v = ground arith

  -- A completed write moves the front of the queue, if any, to the writes.
  pub completes-history :
      (w : Writer B E) (l : List (B × Option E))
      → w.common.outq.output_queue ≡ l
      → history (step w completes) ≡ history w
  unfolding step get_next_element OutputQueue.get_next_element
  completes-history w [] e = ground arith
  completes-history w (x ∷ l) e = ground (arith, append_assoc w.written (x ∷ []) l)

  step-history :
      (w : Writer B E) (c : WriteCall B E)
      → IsSerial w
      → history (step w c) ≡ history w ++ sent w.common.io_started c
  unfolding step start_write_setup set_io_started stop add_element
  step-history w (sends buf endp) v =
      let x : List (B × Option E) = (buf, endp) ∷ [] in
      ground (
        arith,
        append_assoc w.written w.common.outq.output_queue x,
        append-nil (w.written ++ x),
        append-nil w.written,
        append-nil (history w),
      )
  step-history w completes v =
      ground (arith, completes-history w w.common.outq.output_queue refl, append-nil (history w))
  step-history w starts v = ground (arith, append-nil (history w))
  step-history w closes v = ground (arith, append-nil (history w))

  -- What one call and the calls after it add to the history.
  accepted-cons :
      (w : Writer B E) (c : WriteCall B E) (cs : List (WriteCall B E))
      → sent w.common.io_started c ++ accepted (step w c).common.io_started cs
        ≡ accepted w.common.io_started (c ∷ cs)
  unfolding step start_write_setup get_next_element set_io_started stop OutputQueue.get_next_element
  accepted-cons w (sends buf endp) cs = ground arith
  accepted-cons w completes cs = ground arith
  accepted-cons w starts cs = ground arith
  accepted-cons w closes cs = ground arith

  pub run-history :
      (w : Writer B E) (cs : List (WriteCall B E))
      → IsSerial w
      → (history (run w cs) ≡ history w ++ accepted w.common.io_started cs) × IsSerial (run w cs)
  unfolding run
  run-history w [] v = (sym (append-nil (history w)), v)
  run-history w (c ∷ cs) v =
      let (ih, v') = run-history (step w c) cs (step-IsSerial w c v) in
      (
        ih ∙ rw (step-history w c v, append_assoc) (ap (◌++◌ (history w)) (accepted-cons w c cs)),
        v',
      )

  pub new_writer-IsSerial : IsSerial new_writer
  unfolding new_writer new_io_common
  new_writer-IsSerial = ground arith

  -- Over any history of calls on a new io handler, the writes that were started, followed by the
  -- queue, are the buffers that were sent while the handler was started: in the order in which
  -- they were sent, none lost, none twice. At most one write is outstanding.
  pub run-in_order :
      (cs : List (WriteCall B E))
      → let w = run new_writer cs in
        (w.written ++ w.common.outq.output_queue ≡ accepted false cs) × (w.outstanding ≤ 1)
  run-in_order cs =
      let (h, v) = run-history new_writer cs new_writer-IsSerial in
      ((unfold new_writer new_io_common in h), v.one_write)
