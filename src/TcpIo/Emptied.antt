-- ===== src/TcpIo/Emptied.antt =====
-- The output queue of a TCP io handler of net_ip/detail/tcp_io.hpp as its writes complete.
use chops.Prelude.{
  ℕ, zero, suc, ◌≤◌, ◌<◌, ◌≡◌, refl, ap, ap₂, sym, subst, ◌∙◌, true, false, false≢true, Option,
  List, [], ◌∷◌, ◌++◌, map, map-append, append-nil, length, replicate, arith, Bool-cases, inl, inr,
}
use chops.OutputQueue.{SharedBuffer}
use chops.OutputQueue
use chops.IoCommon.{IoCommon, start_write_setup, get_next_element}
use chops.IoCommon.Writes.{Writer, IsSerial, run-history, accepted}
use chops.IoCommon.Writes
use chops.IoCommon.Drain.{run_completes-drains}
use chops.TcpIo.{TcpIo}
use chops.TcpIo.Written.{
  SendCall, sends, completes, Sending, sent, send_run, write_call, buffer, IsWriter,
  send_run-IsWriter,
}

module _ {B : Type 0} where
  sent-append : (cs ds : List (SendCall B)) → sent (cs ++ ds) ≡ sent cs ++ sent ds
  sent-append [] ds = refl
  sent-append (sends buf ∷ cs) ds = ap (λ l. buf ∷ l) (sent-append cs ds)
  sent-append (completes ∷ cs) ds = sent-append cs ds

  sent-replicate : (n : ℕ) → sent (replicate {A = SendCall B} n completes) ≡ []
  sent-replicate zero = refl
  sent-replicate (suc n) = sent-replicate n

module _ {B E : Type 0} ⦃b : SharedBuffer B⦄ where
  -- Completions alone, in the history of the write side.
  map-replicate :
      (n : ℕ)
      → map (write_call {E = E}) (replicate {A = SendCall B} n completes)
        ≡ replicate n Writes.completes
  map-replicate zero = refl
  map-replicate (suc n) = ap (λ l. Writes.completes ∷ l) (map-replicate n)

  run-append :
      (xs ys : List (Writes.WriteCall B E)) (w : Writer B E)
      → Writes.run w (xs ++ ys) ≡ Writes.run (Writes.run w xs) ys
  unfolding Writes.run
  run-append [] ys w = refl
  run-append (x ∷ xs) ys w = run-append xs ys (Writes.step w x)

  run_completes-still :
      (n : ℕ) (c : IoCommon B E) (l : List (B × Option E))
      → (Writes.run
          (record { common = c; written = l; outstanding = 0 })
          (replicate n Writes.completes)).outstanding
        ≡ 0
  unfolding Writes.run Writes.step
  run_completes-still zero c l = refl
  run_completes-still (suc n) c l = run_completes-still n c l

  -- As many completions as there are elements in the queue, and one more, leave no outstanding write.
  run_completes-none :
      (w : Writer B E) (n : ℕ)
      → w.common.io_started ≡ true
      → w.outstanding ≡ n
      → n ≤ 1
      → (Writes.run w
          (replicate (suc (length w.common.outq.output_queue)) Writes.completes)).outstanding
        ≡ 0
  run_completes-none w zero s e one =
      subst
        (λ (k : ℕ).
          (Writes.run (record { common = w.common; written = w.written; outstanding = k })
            (replicate (suc (length w.common.outq.output_queue)) Writes.completes)).outstanding
          ≡ 0)
        (sym e) (run_completes-still (suc (length w.common.outq.output_queue)) w.common w.written)
  run_completes-none w (suc zero) s e one = (run_completes-drains w s e).2
  run_completes-none w (suc (suc n)) s e one = absurd (omega (arith, one))

module _ {B : Type 0} (E : Type 0) ⦃b : SharedBuffer B⦄ where
  map-accepted :
      (cs : List (SendCall B)) → map (buffer {E = E}) (accepted true (map write_call cs)) ≡ sent cs
  map-accepted [] = refl
  map-accepted (sends buf ∷ cs) = ap (λ l. buf ∷ l) (map-accepted cs)
  map-accepted (completes ∷ cs) = map-accepted cs

module _ {B E : Type 0} ⦃b : SharedBuffer B⦄ where
  -- While a write is in progress, one is outstanding.
  pub record IsBusy (w : Writer B E) : Type 0 where
    pub started : w.common.io_started ≡ true
    pub busy : w.common.write_in_progress ≡ true → 0 < w.outstanding

  step-IsBusy : (w : Writer B E) (c : SendCall B) → IsBusy w → IsBusy (Writes.step w (write_call c))
  unfolding Writes.step start_write_setup get_next_element OutputQueue.get_next_element
  step-IsBusy w (sends buf) v = ground arith
  step-IsBusy w completes v = ground arith

  run-IsBusy :
      (cs : List (SendCall B)) (w : Writer B E)
      → IsBusy w
      → IsBusy (Writes.run w (map write_call cs))
  unfolding Writes.run
  run-IsBusy [] w v = v
  run-IsBusy (c ∷ cs) w v = run-IsBusy cs (Writes.step w (write_call c)) (step-IsBusy w c v)

  -- A started handler without a write and with an empty queue.
  pub record IsIdle (io : TcpIo B E) : Type 0 where
    pub started : io.io_common.io_started ≡ true
    pub idle : io.io_common.write_in_progress ≡ false
    pub empty : io.io_common.outq.output_queue ≡ []

  abbrev pub new_sending : TcpIo B E → Sending B E
  new_sending io = record { io = io; written = []; outstanding = 0 }

module _ {B E : Type 0} ⦃b : SharedBuffer B⦄ (io : TcpIo B E) (v : IsIdle io) where
  -- The handler in the history of the write side.
  abbrev idle_writer : Writer B E
  idle_writer = record { common = io.io_common; written = []; outstanding = 0 }

  idle_writer-IsSerial : IsSerial idle_writer
  idle_writer-IsSerial = record {
    one_write = omega arith;
    in_progress = λ h. absurd (omega (arith, h));
    idle_queue = λ h. v.empty;
  }

  run-idle_writer :
      (cs : List (SendCall B))
      → let w = Writes.run idle_writer (map write_call cs) in
        (Writes.history w
          ≡ io.io_common.outq.output_queue ++ accepted io.io_common.io_started (map write_call cs))
        × IsSerial w
        × IsBusy w
  run-idle_writer cs =
      let (hist, serial) = run-history idle_writer (map write_call cs) idle_writer-IsSerial in
      (
        hist,
        serial,
        run-IsBusy cs idle_writer
            (record { started = v.started; busy = λ h. absurd (false≢true (sym v.idle ∙ h)) }),
      )

module _ {B E : Type 0} (H F : Type 0) ⦃b : SharedBuffer B⦄ where
  send_run-idle_writer :
      (io : TcpIo B E) (v : IsIdle io) (cs : List (SendCall B))
      → IsWriter
          (send_run H F (new_sending io) cs)
          (Writes.run (idle_writer io v) (map write_call cs))
  send_run-idle_writer io v cs =
      send_run-IsWriter H F cs (new_sending io) (idle_writer io v)
        (record { common = refl; written = refl; outstanding = refl })

  -- Over any sends and successful writes of a handler that was idle: once no write is outstanding,
  -- what was written is what was sent.
  pub written-sent :
      (io : TcpIo B E) (cs : List (SendCall B))
      → IsIdle io
      → (send_run H F (new_sending io) cs).outstanding ≡ 0
      → (send_run H F (new_sending io) cs).written ≡ sent cs
  written-sent io cs v none_left =
      let w = Writes.run (idle_writer io v) (map write_call cs) in
      let follows = send_run-idle_writer io v cs in
      let (hist, serial, busy) = run-idle_writer io v cs in
      let rest : w.common.outq.output_queue ≡ [] = elim (Bool-cases w.common.write_in_progress) [
        | inl b ↦ absurd (omega (arith, busy.busy b, follows.outstanding, none_left))
        | inr i ↦ serial.idle_queue i
      ] in
      follows.written
      ∙ ap (map buffer) (sym (append-nil w.written) ∙ ap (λ l. w.written ++ l) (sym rest) ∙ hist)
      ∙ ap₂ (λ l st. map buffer (l ++ accepted st (map write_call cs))) v.empty v.started
      ∙ map-accepted E cs

  -- The calls, and then a completion for each element that is in the queue and one more.
  abbrev pub to_the_end : TcpIo B E → List (SendCall B) → List (SendCall B)
  to_the_end io cs =
      let s = send_run H F (new_sending io) cs in
      cs ++ replicate (suc (length s.io.io_common.outq.output_queue)) completes

  -- After these, no write is outstanding.
  send_run-none :
      (io : TcpIo B E) (cs : List (SendCall B))
      → IsIdle io
      → (send_run H F (new_sending io) (to_the_end io cs)).outstanding ≡ 0
  send_run-none io cs v =
      let w = Writes.run (idle_writer io v) (map write_call cs) in
      let (hist, serial, busy) = run-idle_writer io v cs in
      let n = suc (length (send_run H F (new_sending io) cs).io.io_common.outq.output_queue) in
      (send_run-idle_writer io v (to_the_end io cs)).outstanding
      ∙ ap (λ l. (Writes.run (idle_writer io v) l).outstanding)
          (map-append write_call cs (replicate n completes)
            ∙ ap (λ l. map write_call cs ++ l) (map-replicate n))
      ∙ ap (λ x. x.outstanding)
          (run-append (map write_call cs) (replicate n Writes.completes) (idle_writer io v))
      ∙ ap
          (λ c.
            (Writes.run w
              (replicate (suc (length c.outq.output_queue)) Writes.completes)).outstanding)
          (send_run-idle_writer io v cs).common
      ∙ run_completes-none w w.outstanding busy.started refl serial.one_write

  -- And all that was sent was written, in order.
  pub to_the_end-sent :
      (io : TcpIo B E) (cs : List (SendCall B))
      → IsIdle io
      → (send_run H F (new_sending io) (to_the_end io cs)).written ≡ sent cs
  to_the_end-sent io cs v =
      let n = suc (length (send_run H F (new_sending io) cs).io.io_common.outq.output_queue) in
      written-sent io (to_the_end io cs) v (send_run-none io cs v)
      ∙ sent-append cs (replicate n completes)
      ∙ ap (λ l. sent cs ++ l) (sent-replicate n)
      ∙ append-nil (sent cs)
