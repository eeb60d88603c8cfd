-- ===== src/IoStateChange/Examples.antt =====
-- A test of the io state changes: a handler is a number, and 0 is one that is moved from.
use chops.Prelude.{ℕ, refl, some}
use chops.BasicIoInterface.{BasicIoInterface}
use chops.IoStateChange.{Movable}

instance abbrev movable : Movable ℕ
movable = record { moved = λ n. 0; moved-moved = λ n. refl }

abbrev interface : ℕ → BasicIoInterface
interface p = record { ioh_wptr = some p }
