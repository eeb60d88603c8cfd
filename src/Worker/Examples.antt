-- ===== src/Worker/Examples.antt =====
-- A context as a list of handlers, of which some throw, and tests of the worker.
use chops.Prelude.{ℕ, ◌<◌, suc, ◌≡◌, refl, Bool, true, false, some, List, [], ◌∷◌, length, arith}
use chops.Prelude.{zero}
use chops.Worker.{IoContext, Worker, running, no_thread, reset}
use chops.Worker.Joining.{reset-caught}

-- Whether each of the handlers throws.
record Handlers : Type 0 where
  halted : Bool
  throwing : List Bool

abbrev run_first : Handlers → List Bool → Bool × Handlers
run_first x [] = (false, x)
run_first x (threw ∷ rest) = (threw, record x { throwing = rest })

run_first-halted :
    (x : Handlers) (hs : List Bool) → x.halted ≡ false → (run_first x hs).1.halted ≡ false
run_first-halted x [] e = e
run_first-halted x (_ ∷ _) e = e

instance abbrev context : IoContext Handlers
context = record {
  stopped = λ x. x.halted;
  outstanding = λ x. length x.throwing;
  stop = λ x. record x { halted = true };
  run_one = λ x. run_first x x.throwing;
  stop-stopped = λ x. refl;
  stop-outstanding = λ x. refl;
  run_one-stopped = λ x. run_first-halted x x.throwing;
}

-- The thread runs, and the first of two handlers throws.
abbrev two_handlers : Worker Handlers
two_handlers = record {
  ioc = record { halted = false; throwing = true ∷ false ∷ [] };
  wg = true;
  run_thr = running;
}

reset-caught_example :
    reset 2 two_handlers
    ≡ some (record {
      ioc = record { halted = false; throwing = false ∷ [] };
      wg = false;
      run_thr = no_thread;
    })
reset-caught_example = reset-caught 1 two_handlers refl refl (omega arith) refl

-- A context of handlers that do nothing.
record Count : Type 0 where
  halted : Bool
  left : ℕ

abbrev one_fewer : ℕ → ℕ
one_fewer zero = 0
one_fewer (suc n) = n

suc-one_fewer : (n : ℕ) → 0 < n → suc (one_fewer n) ≡ n
suc-one_fewer zero h = absurd (omega arith)
suc-one_fewer (suc n) h = refl

instance abbrev counting : IoContext Count
counting = record {
  stopped = λ x. x.halted;
  outstanding = λ x. x.left;
  stop = λ x. record x { halted = true };
  run_one = λ x. (false, record x { left = one_fewer x.left });
  stop-stopped = λ x. refl;
  stop-outstanding = λ x. refl;
  run_one-stopped = λ x e. e;
}

abbrev three_left : Worker Count
three_left = record { ioc = record { halted = false; left = 3 }; wg = true; run_thr = running }
