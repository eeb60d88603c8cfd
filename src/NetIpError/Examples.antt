-- ===== src/NetIpError/Examples.antt =====
-- A test of the error messages.
use chops.Prelude.{◌≡◌, refl}
use chops.NetIpError.{message, make_error_code, weak_ptr_expired}

expired_message : message (make_error_code weak_ptr_expired).value ≡ "weak pointer expired"
unfolding message
expired_message = refl
