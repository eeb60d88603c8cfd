-- ===== src/BasicIoInterface/Order.antt =====
-- `operator==` and `operator<` of net_ip/basic_io_interface.hpp.
use chops.WeakPtr.{Heap, lock}
use chops.WeakPtr.Order.{IsOrder, locked-IsOrder}
use chops.BasicIoInterface.{less, equals}

-- As long as no io handler is destroyed, `operator<` of the interfaces is a strict weak order, as the
-- ordered containers of the library ask for: irreflexive and transitive, and neither of two interfaces
-- is less than the other just if they are equal by `operator==`.
pub less-IsOrder : {O : Type 0} (hp : Heap O) → IsOrder (less hp) (equals hp)
less-IsOrder hp = record {
  irreflexive = λ a. locked-IsOrder.irreflexive (lock hp a.ioh_wptr);
  transitive = λ a b c.
      locked-IsOrder.transitive (lock hp a.ioh_wptr) (lock hp b.ioh_wptr) (lock hp c.ioh_wptr);
  incomparable = λ a b. locked-IsOrder.incomparable (lock hp a.ioh_wptr) (lock hp b.ioh_wptr);
}
