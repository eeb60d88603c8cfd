-- ===== src/Worker/Joining.antt =====
-- The ends of the thread of net_ip/component/worker.hpp.
use chops.Prelude.{
  ℕ, zero, suc, ◌<◌, ◌≡◌, refl, ap, ◌∙◌, Bool, true, false, some, arith, ◌==◌, Bool-cases, inl, inr,
  ==_iff, if◌then◌else◌,
}
use chops.Worker.{
  IoContext, no_thread, running, returned, caught, Worker, start, stop, reset, join_thread,
  run_round, after_run_one,
}

module _ {X : Type 0} ⦃c : IoContext X⦄ where
  -- One round while the context is stopped ends the thread.
  join_thread-stopped :
      (n : ℕ) (w : Worker X)
      → c.stopped w.ioc ≡ true
      → join_thread (suc n) running w ≡ some (record w { run_thr = no_thread })
  unfolding join_thread
  join_thread-stopped n w e =
      let ended : run_round w ≡ record w { run_thr = returned } = rw e refl in
      ap (λ (v : Worker X). join_thread n v.run_thr v) ended

  -- A worker whose thread runs is stopped within one round: the thread is joined, and what is
  -- outstanding stays so. If it is started again after that, its thread ends in the first round too,
  -- and a `reset` joins it with the same outstanding.
  pub stop-start-reset :
      (n : ℕ) (w : Worker X)
      → w.run_thr ≡ running
      → let w1 = record w { ioc = c.stop w.ioc; run_thr = no_thread } in
        let w2 = record w1 { run_thr = running } in
        (stop (suc n) w ≡ some w1)
        × (c.outstanding w1.ioc ≡ c.outstanding w.ioc)
        × (start w1 ≡ some w2)
        × (reset (suc n) w2 ≡ some (record w1 { wg = false }))
  unfolding stop start reset
  stop-start-reset n w e = (
    ap (λ t. join_thread (suc n) t (record w { ioc = c.stop w.ioc })) e
        ∙ join_thread-stopped n (record w { ioc = c.stop w.ioc }) (c.stop-stopped w.ioc),
    c.stop-outstanding w.ioc,
    refl,
    join_thread-stopped n (record w { ioc = c.stop w.ioc; wg = false; run_thr = running })
        (c.stop-stopped w.ioc),
  )

  -- A round while a handler is outstanding.
  after_round :
      (w : Worker X) (threw : Bool)
      → c.stopped w.ioc ≡ false
      → (c.outstanding w.ioc == 0) ≡ false
      → (c.run_one w.ioc).0 ≡ threw
      → run_round w
        ≡ record w { ioc = (c.run_one w.ioc).1; run_thr = if threw then caught else w.run_thr }
  after_round w true on busy e =
      rw (on, busy) (ap (λ t. after_run_one w (t, (c.run_one w.ioc).1)) e)
  after_round w false on busy e =
      rw (on, busy) (ap (λ t. after_run_one w (t, (c.run_one w.ioc).1)) e)

  idle_round :
      (w : Worker X)
      → c.stopped w.ioc ≡ false
      → (c.outstanding w.ioc == 0) ≡ true
      → w.wg ≡ false
      → run_round w ≡ record w { run_thr = returned }
  idle_round w on idle free = rw (on, idle, free) refl

  -- The rounds without a guard, where no handler throws.
  join_thread-outstanding :
      (n : ℕ) (w : Worker X)
      → ((x : X) → (c.run_one x).0 ≡ false)
      → ((x : X) → 0 < c.outstanding x → suc (c.outstanding (c.run_one x).1) ≡ c.outstanding x)
      → c.stopped w.ioc ≡ false
      → w.wg ≡ false
      → w.run_thr ≡ running
      → c.outstanding w.ioc < n
      → (w' : Worker X) × (join_thread n running w ≡ some w')
        × (c.outstanding w'.ioc ≡ 0)
        × (w'.run_thr ≡ no_thread)
  unfolding join_thread
  join_thread-outstanding zero w calm fewer on free run enough = absurd (omega arith)
  join_thread-outstanding (suc n) w calm fewer on free run enough =
      elim (Bool-cases (c.outstanding w.ioc == 0)) [
        | inl idle ↦ (
          record w { run_thr = no_thread },
          ap (λ (v : Worker X). join_thread n v.run_thr v) (idle_round w on idle free),
          (==_iff (c.outstanding w.ioc) 0).0 idle,
          refl,
        )
        | inr busy ↦
            let next : Worker X = record w { ioc = (c.run_one w.ioc).1 } in
            let one = fewer w.ioc (ground (arith, busy)) in
            let (w', joined, none_left, gone) =
              join_thread-outstanding n next calm fewer (c.run_one-stopped w.ioc on) free run
                (omega (arith, one)) in
            (
              w',
              ap (λ (v : Worker X). join_thread n v.run_thr v)
                    (after_round w false on busy (calm w.ioc))
                  ∙ ap (λ t. join_thread n t next) run
                  ∙ joined,
              none_left,
              gone,
            )
      ]

  -- Where no handler throws, and each that runs is one less outstanding: a `reset` of a worker whose
  -- thread runs a context that is not stopped joins the thread, within one round more than there are
  -- outstanding handlers, when none is left.
  pub reset-outstanding :
      (n : ℕ) (w : Worker X)
      → ((x : X) → (c.run_one x).0 ≡ false)
      → ((x : X) → 0 < c.outstanding x → suc (c.outstanding (c.run_one x).1) ≡ c.outstanding x)
      → c.stopped w.ioc ≡ false
      → w.run_thr ≡ running
      → c.outstanding w.ioc < n
      → (w' : Worker X) × (reset n w ≡ some w')
        × (c.outstanding w'.ioc ≡ 0)
        × (w'.run_thr ≡ no_thread)
  unfolding reset
  reset-outstanding n w calm fewer on run enough =
      let (w', joined, none_left, gone) =
        join_thread-outstanding n (record w { wg = false }) calm fewer on refl run enough in
      (w', ap (λ t. join_thread n t (record w { wg = false })) run ∙ joined, none_left, gone)

  -- Where the next handler throws, a `reset` of a worker whose thread runs joins the thread after this
  -- handler, and what is outstanding then stays so.
  pub reset-caught :
      (n : ℕ) (w : Worker X)
      → c.stopped w.ioc ≡ false
      → w.run_thr ≡ running
      → 0 < c.outstanding w.ioc
      → (c.run_one w.ioc).0 ≡ true
      → reset (suc n) w
        ≡ some (record { ioc = (c.run_one w.ioc).1; wg = false; run_thr = no_thread })
  unfolding reset join_thread
  reset-caught n w on run busy threw =
      ap (λ t. join_thread (suc n) t (record w { wg = false })) run
      ∙ ap (λ (v : Worker X). join_thread n v.run_thr v)
          (after_round (record w { wg = false }) true on (ground (arith, busy)) threw)
