-- ===== src/BasicNetEntity/Order.antt =====
-- `operator==` and `operator<` of net_ip/basic_net_entity.hpp.
use chops.WeakPtr.{Heap, lock}
use chops.WeakPtr.Order.{IsOrder, locked-IsOrder}
use chops.BasicNetEntity.{less, equals}

-- As long as no net entity is destroyed, `operator<` is a strict weak order, and neither of two net
-- entity objects is less than the other just if they are equal by `operator==`.
pub net_entity_less-IsOrder : {O : Type 0} (hp : Heap O) → IsOrder (less hp) (equals hp)
net_entity_less-IsOrder hp = record {
  irreflexive = λ a. locked-IsOrder.irreflexive (lock hp a.eh_wptr);
  transitive = λ a b c.
      locked-IsOrder.transitive (lock hp a.eh_wptr) (lock hp b.eh_wptr) (lock hp c.eh_wptr);
  incomparable = λ a b. locked-IsOrder.incomparable (lock hp a.eh_wptr) (lock hp b.eh_wptr);
}
