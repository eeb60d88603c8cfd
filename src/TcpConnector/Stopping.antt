-- ===== src/TcpConnector/Stopping.antt =====
-- `stop` and `close` of net_ip/detail/tcp_connector.hpp.
use chops.Prelude.{
  ℕ, ◌≡◌, refl, Bool, true, false, Option, none, some, List, [], ◌∷◌, ◌++◌, if◌then◌else◌,
  append_assoc, Bool-cases, inl, inr,
}
use chops.NetIpError.{make_error_code, tcp_connector_stopped}
use chops.NetEntityCommon.{error_call, call_error_cb}
use chops.TcpConnector.{
  TcpConnector, ConnectorCall, callback, cancel_resolve, cancel_timer, close_connector_socket,
  close_io, is_empty, stop,
}

module _ {E C : Type 0} where
  -- The timer is cancelled where there is no io handler.
  abbrev pub timer_calls : Option ℕ → List (ConnectorCall E C)
  timer_calls none = cancel_timer ∷ []
  timer_calls (some _) = []

  -- The calls of a `stop`, in terms of the endpoints and of the io handler.
  abbrev pub stop_calls : List E → Option ℕ → C → List (ConnectorCall E C)
  stop_calls endpoints iop fe =
      (if is_empty endpoints then cancel_resolve ∷ [] else [])
      ++ timer_calls iop
      ++ close_connector_socket
        ∷ callback (error_call fe none (make_error_code tcp_connector_stopped))
        ∷ []

module _ {B E C : Type 0} where
  -- What `stop` makes of a connector.
  abbrev pub stopped : TcpConnector B E C → C → Bool × TcpConnector B E C
  stopped c fe =
      if c.entity_common.started
      then (
        true,
        record c {
          entity_common = record c.entity_common { started = false };
          shutting_down = true;
          io_handler = none;
          heap = (close_io c c.io_handler).heap;
          calls = c.calls ++ stop_calls c.endpoints c.io_handler fe;
        },
      )
      else (false, c)

  stop_at-stopped :
      (started : Bool) (endpoints : List E) (iop : Option ℕ) (c : TcpConnector B E C) (fe : C)
      → c.entity_common.error_cb ≡ some fe
      → let v = record c {
        entity_common = record c.entity_common { started = started };
        endpoints = endpoints;
        io_handler = iop;
      } in
        stop v ≡ stopped v fe
  unfolding stop call_error_cb
  stop_at-stopped false endpoints iop c fe ce = refl
  stop_at-stopped true [] none c fe ce = simp (ce, append_assoc)
  stop_at-stopped true (_ ∷ _) none c fe ce = simp (ce, append_assoc)
  stop_at-stopped true [] (some p) c fe ce = elim (Bool-cases (c.heap p).io_common.io_started) [
    | inl live ↦ rw live (simp (ce, append_assoc))
    | inr idle ↦ rw idle (simp (ce, append_assoc))
  ]
  stop_at-stopped true (_ ∷ _) (some p) c fe ce =
      elim (Bool-cases (c.heap p).io_common.io_started) [
        | inl live ↦ rw live (simp (ce, append_assoc))
        | inr idle ↦ rw idle (simp (ce, append_assoc))
      ]

  -- Where the error callback is set: `stop` of a connector that is not started returns false and
  -- changes nothing. Of a started one it returns true; the connector is left not started, shutting
  -- down and without an io handler, and a handler whose io is started is closed. The resolve is
  -- cancelled where there are no endpoints yet, and the timer where there is no handler. Last come the
  -- closing of the connector's own socket and `tcp_connector_stopped`; no state change is told.
  pub stop-stopped :
      (c : TcpConnector B E C) (fe : C) → c.entity_common.error_cb ≡ some fe → stop c ≡ stopped c fe
  stop-stopped c fe ce = stop_at-stopped c.entity_common.started c.endpoints c.io_handler c fe ce
