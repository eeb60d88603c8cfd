-- ===== src/NetEntityCommon/Calls.antt =====
-- The calls of the callbacks of net_ip/detail/net_entity_common.hpp: the call of an empty one throws.
use chops.Prelude.{ℕ, ◌≡◌, Bool, true, Option, List, [], ◌∷◌, ◌++◌, arith}
use chops.NetIpError.{ErrorCode}
use chops.NetEntityCommon.{
  NetEntityCommon, Callback, io_state_chg, error_call, bad_function_call, call_io_state_chg_cb,
  call_error_cb,
}
use chops.IoCommon.{has_value}

module _ {C : Type 0} where
  -- No call of a callback threw.
  abbrev pub AreSafe : List (Callback C) → Type 0
  AreSafe [] = Unit {0}
  AreSafe (bad_function_call ∷ cs) = ⊥
  AreSafe (io_state_chg f p n s ∷ cs) = AreSafe cs
  AreSafe (error_call f p e ∷ cs) = AreSafe cs

  pub AreSafe-append : (cs ds : List (Callback C)) → AreSafe cs → AreSafe ds → AreSafe (cs ++ ds)
  AreSafe-append [] ds v w = w
  AreSafe-append (bad_function_call ∷ cs) ds v w = v
  AreSafe-append (io_state_chg _ _ _ _ ∷ cs) ds v w = AreSafe-append cs ds v w
  AreSafe-append (error_call _ _ _ ∷ cs) ds v w = AreSafe-append cs ds v w

  pub AreSafe-io_state_chg :
      (c : NetEntityCommon C) (cs : List (Callback C)) (p n : ℕ) (s : Bool)
      → AreSafe cs
      → has_value c.io_state_chg_cb ≡ true
      → AreSafe (cs ++ call_io_state_chg_cb c p n s ∷ [])
  unfolding call_io_state_chg_cb
  AreSafe-io_state_chg c [] p n s h v = ground arith
  AreSafe-io_state_chg c (bad_function_call ∷ cs) p n s h v = h
  AreSafe-io_state_chg c (io_state_chg _ _ _ _ ∷ cs) p n s h v = AreSafe-io_state_chg c cs p n s h v
  AreSafe-io_state_chg c (error_call _ _ _ ∷ cs) p n s h v = AreSafe-io_state_chg c cs p n s h v

  pub AreSafe-error_call :
      (c : NetEntityCommon C) (cs : List (Callback C)) (p : Option ℕ) (e : ErrorCode)
      → AreSafe cs
      → has_value c.error_cb ≡ true
      → AreSafe (cs ++ call_error_cb c p e ∷ [])
  unfolding call_error_cb
  AreSafe-error_call c [] p e h v = ground arith
  AreSafe-error_call c (bad_function_call ∷ cs) p e h v = h
  AreSafe-error_call c (io_state_chg _ _ _ _ ∷ cs) p e h v = AreSafe-error_call c cs p e h v
  AreSafe-error_call c (error_call _ _ _ ∷ cs) p e h v = AreSafe-error_call c cs p e h v
