-- ===== src/BasicIoInterface/Once.antt =====
-- `stop_io` of net_ip/basic_io_interface.hpp, called again.
use chops.Prelude.{◌≡◌, false}
use chops.WeakPtr.{Heap}
use chops.WeakPtr.Again.{again, pointer-HaltsOnce}
use chops.BasicIoInterface.{BasicIoInterface, IoHandler, is_io_started, stop_io, is_valid}

module _ {O : Type 0} ⦃ioh : IoHandler O⦄ where
  -- For any io handler and whether the interface is valid or not: `stop_io` returns what
  -- `is_io_started` would, or throws what it throws. After it, `is_io_started` and a second `stop_io`
  -- return false, or throw the same, as the interface is as valid as it was.
  pub stop_io-again :
      (hp : Heap O) (io : BasicIoInterface)
      → let (result, hp') = stop_io hp io in
        (result ≡ (is_io_started hp io).0)
        × ((is_io_started hp' io).0 ≡ again false result)
        × ((stop_io hp' io).0 ≡ again false result)
        × (is_valid hp' io ≡ is_valid hp io)
  unfolding stop_io is_io_started
  stop_io-again hp io =
      let v =
        pointer-HaltsOnce ioh.is_io_started ioh.stop_io ioh.stop_io-result ioh.stop_io-off hp
          io.ioh_wptr in
      (v.result, v.off, v.again_off, v.valid)
