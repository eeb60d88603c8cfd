-- ===== src/IoCommon/Drain.antt =====
-- What becomes of the output queue of net_ip/detail/io_common.hpp: it drains while the io handler
-- stays started, and it is stuck for good once a write has completed on a stopped handler.
use chops.Prelude.{
  suc, ◌≡◌, refl, ap, sym, ◌∙◌, true, false, Option, List, [], ◌∷◌, ◌++◌, append-nil, length,
  replicate, arith,
}
use chops.OutputQueue.{SharedBuffer}
use chops.OutputQueue
use chops.IoCommon.{set_io_started, stop, start_write_setup, get_next_element}
use chops.IoCommon.Writes.{
  WriteCall, sends, completes, starts, closes, Writer, step, run, completes-history,
}

module _ {B E : Type 0} ⦃b : SharedBuffer B⦄ where
  -- One completion on a started handler with an outstanding write.
  step_completes-front :
      (w : Writer B E) (x : B × Option E) (l : List (B × Option E))
      → w.common.io_started ≡ true
      → w.outstanding ≡ 1
      → w.common.outq.output_queue ≡ x ∷ l
      → ((step w completes).common.io_started ≡ true)
        × ((step w completes).outstanding ≡ 1)
        × ((step w completes).common.outq.output_queue ≡ l)
  unfolding step get_next_element OutputQueue.get_next_element
  step_completes-front w x l s o e = ground arith

  step_completes-empty :
      (w : Writer B E)
      → w.common.io_started ≡ true
      → w.outstanding ≡ 1
      → w.common.outq.output_queue ≡ []
      → ((step w completes).common.write_in_progress ≡ false)
        × ((step w completes).outstanding ≡ 0)
        × ((step w completes).common.outq.output_queue ≡ [])
  unfolding step get_next_element OutputQueue.get_next_element
  step_completes-empty w s o e = ground arith

  drain :
      (w : Writer B E) (l : List (B × Option E))
      → w.common.io_started ≡ true
      → w.outstanding ≡ 1
      → w.common.outq.output_queue ≡ l
      → let w' = run w (replicate (suc (length l)) completes) in
        (w'.written ≡ w.written ++ l)
        × (w'.common.outq.output_queue ≡ [])
        × (w'.outstanding ≡ 0)
        × (w'.common.write_in_progress ≡ false)
  unfolding run
  drain w [] s o e =
      let (idle, none_left, empty) = step_completes-empty w s o e in
      (
        sym (append-nil (step w completes).written)
            ∙ ap (◌++◌ (step w completes).written) (sym empty)
            ∙ completes-history w [] e
            ∙ ap (◌++◌ w.written) e,
        empty,
        none_left,
        idle,
      )
  drain w (x ∷ l) s o e =
      let (s', o', e') = step_completes-front w x l s o e in
      let (all, empty, none_left, idle) = drain (step w completes) l s' o' e' in
      (
        all
            ∙ ap (◌++◌ (step w completes).written) (sym e')
            ∙ completes-history w (x ∷ l) e
            ∙ ap (◌++◌ w.written) e,
        empty,
        none_left,
        idle,
      )

  -- While an io handler stays started, the completion of its outstanding write and one more for
  -- each queued buffer write the whole queue, in its order, and leave the handler idle.
  pub run_completes-drains :
      (w : Writer B E)
      → w.common.io_started ≡ true
      → w.outstanding ≡ 1
      → let w' = run w (replicate (suc (length w.common.outq.output_queue)) completes) in
        (w'.written ≡ w.written ++ w.common.outq.output_queue)
        × (w'.common.outq.output_queue ≡ [])
        × (w'.outstanding ≡ 0)
        × (w'.common.write_in_progress ≡ false)
  run_completes-drains w s o = drain w w.common.outq.output_queue s o refl

  -- A handler that believes in a write which is not there.
  pub record IsStalled (w : Writer B E) : Type 0 where
    pub none_outstanding : w.outstanding ≡ 0
    pub believed : w.common.write_in_progress ≡ true

  step-IsStalled :
      (w : Writer B E) (c : WriteCall B E)
      → IsStalled w
      → IsStalled (step w c) × ((step w c).written ≡ w.written)
  unfolding step start_write_setup set_io_started stop
  step-IsStalled w (sends buf endp) v = ground arith
  step-IsStalled w completes v = ground arith
  step-IsStalled w starts v = ground arith
  step-IsStalled w closes v = ground arith

  run_stalled :
      (w : Writer B E) (cs : List (WriteCall B E)) → IsStalled w → (run w cs).written ≡ w.written
  unfolding run
  run_stalled w [] v = refl
  run_stalled w (c ∷ cs) v = let (v', e) = step-IsStalled w c v in run_stalled (step w c) cs v' ∙ e

  -- The outstanding write of a handler completes after the handler was stopped.
  completes_late :
      (w : Writer B E)
      → w.common.write_in_progress ≡ true
      → w.outstanding ≡ 1
      → let w' = step (step w closes) completes in IsStalled w' × (w'.written ≡ w.written)
  unfolding step get_next_element stop
  completes_late w p o = ground arith

  -- When a handler with an outstanding write is stopped and the write completes then, no buffer is
  -- ever written again: whatever is called later, `start_io` included, no write is started.
  pub run_stopped-stalls :
      (w : Writer B E) (cs : List (WriteCall B E))
      → w.common.write_in_progress ≡ true
      → w.outstanding ≡ 1
      → (run w (closes ∷ completes ∷ cs)).written ≡ w.written
  unfolding run
  run_stopped-stalls w cs p o =
      let (stalled, e) = completes_late w p o in
      run_stalled (step (step w closes) completes) cs stalled ∙ e
