-- ===== src/UdpEntityIo/Stopping.antt =====
-- `stop` and `stop_io` of net_ip/detail/udp_entity_io.hpp.
use chops.Prelude.{
  ◌≡◌, refl, Bool, true, false, some, List, [], ◌∷◌, ◌++◌, if◌then◌else◌, append_assoc,
}
use chops.NetIpError.{make_error_code, udp_io_handler_stopped, udp_entity_stopped}
use chops.NetEntityCommon.{io_state_chg, error_call, call_io_state_chg_cb, call_error_cb}
use chops.UdpEntityIo.{UdpEntityIo, UdpCall, callback, close_socket, stop}

module _ {B E C H : Type 0} where
  -- The calls of a `stop` that stops the io too, and of any `stop` at its end.
  abbrev pub io_stop_calls : UdpEntityIo B E C H → C → C → List (UdpCall B E C H)
  io_stop_calls u fs fe =
      if u.io_common.io_started
      then close_socket
        ∷ callback (error_call fe (some u.self) (make_error_code udp_io_handler_stopped))
        ∷ callback (io_state_chg fs u.self 0 false)
        ∷ []
      else []

  -- What `stop` makes of an entity, in terms of its flags.
  abbrev pub after_stop : UdpEntityIo B E C H → C → C → Bool × UdpEntityIo B E C H
  after_stop u fs fe =
      if u.entity_common.started
      then (
        true,
        record u {
          entity_common = record u.entity_common { started = false };
          io_common = record u.io_common { io_started = false };
          is_open = if u.io_common.io_started then false else u.is_open;
          calls =
              u.calls
              ++ (io_stop_calls u fs fe
                  ++ callback (error_call fe (some u.self) (make_error_code udp_entity_stopped))
                    ∷ []);
        },
      )
      else (false, u)

  stop_at-after_stop :
      (started io_started : Bool) (u : UdpEntityIo B E C H) (fs fe : C)
      → u.entity_common.io_state_chg_cb ≡ some fs
      → u.entity_common.error_cb ≡ some fe
      → let v = record u {
        entity_common = record u.entity_common { started = started };
        io_common = record u.io_common { io_started = io_started };
      } in
        stop v ≡ after_stop v fs fe
  unfolding stop call_io_state_chg_cb call_error_cb
  stop_at-after_stop false io_started u fs fe cs ce = refl
  stop_at-after_stop true false u fs fe cs ce = simp (cs, ce)
  stop_at-after_stop true true u fs fe cs ce = simp (cs, ce, append_assoc)

  -- Where both callbacks are set: `stop` of an entity that is not started returns false and changes nothing. Of a started one it
  -- returns true, and leaves both the entity and its io not started. If its io was started, the
  -- socket is closed, and the application is told of `udp_io_handler_stopped` and of the state change
  -- to no handler. If it was not, the socket stays as it was, and no state change is told. In both
  -- cases `udp_entity_stopped` comes last.
  pub stop-after_stop :
      (u : UdpEntityIo B E C H) (fs fe : C)
      → u.entity_common.io_state_chg_cb ≡ some fs
      → u.entity_common.error_cb ≡ some fe
      → stop u ≡ after_stop u fs fe
  stop-after_stop u fs fe cs ce =
      stop_at-after_stop u.entity_common.started u.io_common.io_started u fs fe cs ce
