-- ===== src/NetEntityCommon.antt =====
-- net_ip/detail/net_entity_common.hpp: the state that the TCP acceptor, the TCP connector and the UDP
-- entity share. A callback is stored under a name of it, of the type `C`, and its calls are recorded.
pub mod Calls
use chops.Prelude.{ℕ, Bool, true, false, Option, none, some, compare_exchange, if◌then◌else◌}
use chops.NetIpError.{ErrorCode}

-- `m_io_state_chg_cb` and `m_error_cb` are empty until the first `start`.
pub record NetEntityCommon (C : Type 0) : Type 0 where
  pub started : Bool
  pub io_state_chg_cb : Option C
  pub error_cb : Option C

-- The call of a callback. An io handler is given by its address; `none` is a null pointer. The call
-- of an empty `std::function` throws.
pub data Callback (C : Type 0) : Type 0 where
  io_state_chg : C → (handler : ℕ) → (num_handlers : ℕ) → (starting : Bool) → Callback C
  error_call : C → Option ℕ → ErrorCode → Callback C
  bad_function_call : Callback C

module _ {C : Type 0} where
  unfoldable pub new_net_entity_common : NetEntityCommon C
  new_net_entity_common = record { started = false; io_state_chg_cb = none; error_cb = none }

  unfoldable pub is_started : NetEntityCommon C → Bool
  is_started c = c.started

  unfoldable pub start : NetEntityCommon C → C → C → Bool × NetEntityCommon C
  start c io_state_chg_func err_func =
      let (done, flag) = compare_exchange c.started false true in
      if done
      then (
        true,
        record {
          started = flag;
          io_state_chg_cb = some io_state_chg_func;
          error_cb = some err_func;
        },
      )
      else (false, record c { started = flag })

  unfoldable pub stop : NetEntityCommon C → Bool × NetEntityCommon C
  stop c =
      let (done, flag) = compare_exchange c.started true false in
      (done, record c { started = flag })

  unfoldable pub call_io_state_chg_cb : NetEntityCommon C → ℕ → ℕ → Bool → Callback C
  call_io_state_chg_cb c p sz starting = elim c.io_state_chg_cb [
    | none ↦ bad_function_call
    | some f ↦ io_state_chg f p sz starting
  ]

  unfoldable pub call_error_cb : NetEntityCommon C → Option ℕ → ErrorCode → Callback C
  call_error_cb c p err = elim c.error_cb [ none ↦ bad_function_call | some f ↦ error_call f p err ]
