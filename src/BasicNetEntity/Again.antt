-- ===== src/BasicNetEntity/Again.antt =====
-- `stop` of net_ip/basic_net_entity.hpp, called again.
use chops.Prelude.{◌≡◌, false}
use chops.WeakPtr.{Heap}
use chops.WeakPtr.Again.{again, pointer-HaltsOnce}
use chops.BasicNetEntity.{BasicNetEntity, NetEntity, is_started, stop, is_valid}

module _ {O S : Type 0} (entity : NetEntity O S) where
  -- For any net entity and whether the object is valid or not: `stop` returns what `is_started` would,
  -- or throws what it throws. After it, `is_started` and a second `stop` return false, or throw the
  -- same, as the object is as valid as it was.
  pub stop-again :
      (hp : Heap O) (e : BasicNetEntity)
      → let (result, hp') = stop entity hp e in
        (result ≡ (is_started entity hp e).0)
        × ((is_started entity hp' e).0 ≡ again false result)
        × ((stop entity hp' e).0 ≡ again false result)
        × (is_valid hp' e ≡ is_valid hp e)
  unfolding stop is_started
  stop-again hp e =
      let v =
        pointer-HaltsOnce entity.is_started entity.stop entity.stop-result entity.stop-off hp
          e.eh_wptr in
      (v.result, v.off, v.again_off, v.valid)
