-- ===== src/Worker.antt =====
-- net_ip/component/worker.hpp: a thread that runs an `io_context`, which is kept at work by a work guard.
-- The `io_context` is of the networking library.
use chops.Prelude.{
  ℕ, zero, suc, ◌<◌, ◌≡◌, Bool, true, false, not, Option, none, some, ◌==◌, if◌then◌else◌,
}
pub mod Joining
mod Examples

-- What the worker uses of an `io_context`.
pub record IoContext (X : Type 0) : Type 0 where
  pub stopped : X → Bool
  pub outstanding : X → ℕ  -- the operations and handlers that did not complete, without the guard
  pub stop : X → X
  -- One of them runs: whether its handler threw, and the context after it.
  pub run_one : X → Bool × X
  pub stop-stopped : (x : X) → stopped (stop x) ≡ true
  pub stop-outstanding : (x : X) → outstanding (stop x) ≡ outstanding x
  pub run_one-stopped : (x : X) → stopped x ≡ false → stopped (run_one x).1 ≡ false

-- `m_run_thr`: no thread, one that runs, and one that has ended and was not joined, by the return of
-- `run` or by an exception, which is reported.
pub data Thread : Type 0 where
  no_thread running returned caught : Thread

pub record Worker (X : Type 0) : Type 0 where
  pub ioc : X
  pub wg : Bool  -- whether m_wg owns its work
  pub run_thr : Thread

abbrev pub new_worker : {X : Type 0} → X → Worker X
new_worker ioc = record { ioc = ioc; wg = true; run_thr = no_thread }

abbrev pub get_io_context : {X : Type 0} → Worker X → X
get_io_context w = w.ioc

module _ {X : Type 0} where
  -- The assignment of a thread to one that is joinable ends the program: none.
  abbrev pub assign_thread : Worker X → Thread → Option (Worker X)
  assign_thread w no_thread = some (record w { run_thr = running })
  assign_thread w _ = none

  unfoldable pub start : Worker X → Option (Worker X)
  start w = assign_thread w w.run_thr

module _ {X : Type 0} ⦃c : IoContext X⦄ where
  abbrev pub after_run_one : Worker X → Bool × X → Worker X
  after_run_one w (true, x) = record w { ioc = x; run_thr = caught }
  after_run_one w (false, x) = record w { ioc = x }

  -- One round of the thread: `run` returns when the context is stopped or has no work left, waits while
  -- only the guard is left, and otherwise runs a handler.
  abbrev pub run_round : Worker X → Worker X
  run_round w =
      if c.stopped w.ioc
      then record w { run_thr = returned }
      else if c.outstanding w.ioc == 0
      then if w.wg then w else record w { run_thr = returned }
      else after_run_one w (c.run_one w.ioc)

  -- `m_run_thr.join()`: the rounds of the thread until it ends. None where the fuel runs out, and where
  -- there is no thread, which throws.
  unfoldable pub join_thread : ℕ → Thread → Worker X → Option (Worker X)
  join_thread n no_thread w = none
  join_thread n returned w = some (record w { run_thr = no_thread })
  join_thread n caught w = some (record w { run_thr = no_thread })
  join_thread zero running w = none
  join_thread (suc n) running w = let w' = run_round w in join_thread n w'.run_thr w'

  unfoldable pub stop : ℕ → Worker X → Option (Worker X)
  unfolding join_thread
  stop n w = let w' = record w { ioc = c.stop w.ioc } in join_thread n w'.run_thr w'

  unfoldable pub reset : ℕ → Worker X → Option (Worker X)
  unfolding join_thread
  reset n w = let w' = record w { wg = false } in join_thread n w'.run_thr w'
