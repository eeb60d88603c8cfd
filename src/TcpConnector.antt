-- ===== src/TcpConnector.antt =====
-- net_ip/detail/tcp_connector.hpp: the TCP connector, its connect and reconnect, and the io handler of
-- its connection. The handlers that it created are objects on a heap. A method returns the connector
-- with the calls that it made of the application's callbacks, the resolver, the timer and the socket
-- added to `calls`, newest last. The completion handlers of the resolve, the connect and the wait are
-- methods of their own.
use chops.Prelude.{
  ℕ, suc, Bool, true, false, not, ◌||◌, Option, none, some, List, [], ◌∷◌, ◌++◌, ◌==◌,
  if◌then◌else◌,
}
use chops.NetIpError.{ErrorCode, make_error_code, is_error, tcp_connector_stopped}
use chops.NetEntityCommon
use chops.NetEntityCommon.{
  NetEntityCommon, Callback, new_net_entity_common, call_io_state_chg_cb, call_error_cb,
}
use chops.TcpIo.{
  TcpIo, TcpEffect, async_read, async_read_until, async_write, shutdown_socket, close_socket,
  notify, new_tcp_io,
}
use chops.TcpIo
use chops.TcpAcceptor.{update}
pub mod Stopping
pub mod Histories
pub mod Retrying
pub mod Starting
pub mod Lost
pub mod Cancelled
pub mod Twice
mod Examples

-- The calls. The resolver gets the host and the port, the connect the endpoints to try, and the timer
-- the time to wait.
pub data ConnectorCall (E C : Type 0) : Type 0 where
  callback : Callback C → ConnectorCall E C
  make_endpoints : (host port : List ℕ) → ConnectorCall E C
  cancel_resolve : ConnectorCall E C
  async_connect : List E → ConnectorCall E C
  async_wait : ℕ → ConnectorCall E C
  cancel_timer : ConnectorCall E C
  close_connector_socket : ConnectorCall E C

pub record TcpConnector (B E C : Type 0) : Type 0 where
  pub entity_common : NetEntityCommon C
  pub io_handler : Option ℕ
  pub endpoints : List E
  pub reconn_time : ℕ
  pub remote_host : List ℕ
  pub remote_port : List ℕ
  pub shutting_down : Bool
  pub heap : ℕ → TcpIo B E
  pub next_address : ℕ
  pub failed_assert : Bool  -- whether the assertion of notify_me has failed
  pub calls : List (ConnectorCall E C)

-- Whether a pointer is the one of an object, and whether a vector is empty.
abbrev pub points_to : Option ℕ → ℕ → Bool
points_to none q = false
points_to (some p) q = p == q

abbrev pub is_empty : {E : Type 0} → List E → Bool
is_empty [] = true
is_empty (_ ∷ _) = false

module _ {B E C : Type 0} where
  abbrev pub call : TcpConnector B E C → ConnectorCall E C → TcpConnector B E C
  call c x = record c { calls = c.calls ++ x ∷ [] }

  abbrev pub error : TcpConnector B E C → Option ℕ → ErrorCode → TcpConnector B E C
  error c iop err = call c (callback (call_error_cb c.entity_common iop err))

  -- The two constructors; nothing is on the heap yet.
  unfoldable pub new_tcp_connector : E → List E → ℕ → TcpConnector B E C
  unfolding new_net_entity_common new_tcp_io
  new_tcp_connector default_endp endpoints reconn_time = record {
    entity_common = new_net_entity_common;
    io_handler = none;
    endpoints = endpoints;
    reconn_time = reconn_time;
    remote_host = [];
    remote_port = [];
    shutting_down = false;
    heap = λ p. new_tcp_io default_endp;
    next_address = 0;
    failed_assert = false;
    calls = [];
  }

  unfoldable pub new_resolving_connector : E → List ℕ → List ℕ → ℕ → TcpConnector B E C
  unfolding new_tcp_connector
  new_resolving_connector default_endp remote_port remote_host reconn_time =
      record (new_tcp_connector default_endp [] reconn_time) {
        remote_host = remote_host;
        remote_port = remote_port;
      }

  unfoldable pub is_started : TcpConnector B E C → Bool
  unfolding NetEntityCommon.is_started
  is_started c = NetEntityCommon.is_started c.entity_common

  abbrev pub start_connect : TcpConnector B E C → TcpConnector B E C
  start_connect c = call c (async_connect c.endpoints)

  unfoldable pub start : TcpConnector B E C → C → C → Bool × TcpConnector B E C
  unfolding NetEntityCommon.start
  start c io_state_chg err_cb =
      let (started, e) = NetEntityCommon.start c.entity_common io_state_chg err_cb in
      let c0 = record c { entity_common = e } in
      if not started
      then (false, c0)
      else let c1 = record c0 { shutting_down = false } in
        if is_empty c1.endpoints
        then (true, call c1 (make_endpoints c1.remote_host c1.remote_port))
        else (true, start_connect c1)

  -- `m_entity_common.stop()`, whose result is not looked at.
  abbrev pub stop_entity : TcpConnector B E C → TcpConnector B E C
  stop_entity c = record c { entity_common = (NetEntityCommon.stop c.entity_common).1 }

  -- The completion handler of the resolve.
  unfoldable pub handle_resolve : TcpConnector B E C → ErrorCode → List E → TcpConnector B E C
  unfolding NetEntityCommon.stop
  handle_resolve c err res =
      if is_error err
      then stop_entity (error c none err)
      else start_connect (record c { endpoints = c.endpoints ++ res })

  -- `iop->close()`; what it calls of the socket has no part in the connector.
  abbrev pub close_handler : TcpConnector B E C → ℕ → TcpConnector B E C
  close_handler c iop = record c {
    heap = update c.heap iop (TcpIo.close {H = Unit {0}} {F = Unit {0}} (c.heap iop)).0;
  }

  -- What `close` does of the io handler, or of the timer where there is none.
  abbrev pub close_io : TcpConnector B E C → Option ℕ → TcpConnector B E C
  close_io c (some iop) =
      record (if (c.heap iop).io_common.io_started then close_handler c iop else c) {
        io_handler = none;
      }
  close_io c none = call c cancel_timer

  unfoldable pub close : TcpConnector B E C → Bool × TcpConnector B E C
  unfolding NetEntityCommon.stop TcpIo.close
  close c =
      let (stopped, e) = NetEntityCommon.stop c.entity_common in
      let c0 = record c { entity_common = e } in
      if not stopped
      then (false, c0)
      else let c1 = record c0 { shutting_down = true } in
        let c2 = if is_empty c1.endpoints then call c1 cancel_resolve else c1 in
        (true, call (close_io c2 c2.io_handler) close_connector_socket)

  unfoldable pub stop : TcpConnector B E C → Bool × TcpConnector B E C
  unfolding close
  stop c =
      let (closed, c0) = close c in
      if not closed
      then (false, c0)
      else (true, error c0 none (make_error_code tcp_connector_stopped))

  -- The completion handler of the connect. `expires` is the error code that `expires_after` throws,
  -- if any; `endp` is the endpoint that is constructed by default.
  unfoldable pub handle_connect :
      TcpConnector B E C → ErrorCode → Option ErrorCode → E → TcpConnector B E C
  unfolding is_started NetEntityCommon.stop
  handle_connect c err expires endp =
      if is_error err
      then (let c0 = error c none err in
          if not (is_started c0) || c0.shutting_down then c0 else elim expires [
            | none ↦ call c0 (async_wait c0.reconn_time)
            | some code ↦ stop_entity (error c0 none code)
          ])
      else (let iop = c.next_address in
          let c0 = record c {
            heap = update c.heap iop (new_tcp_io endp);
            next_address = suc iop;
            io_handler = some iop;
          } in
          call c0 (callback (call_io_state_chg_cb c0.entity_common iop 1 true)))

  -- The completion handler of the wait.
  abbrev pub handle_wait : TcpConnector B E C → ErrorCode → TcpConnector B E C
  handle_wait c err = if is_error err then c else start_connect c

  -- `notify_me` before its call of `stop`.
  unfoldable pub tell_end : TcpConnector B E C → ErrorCode → ℕ → TcpConnector B E C
  unfolding TcpIo.close
  tell_end c err iop =
      let c0 = record c { failed_assert = c.failed_assert || not (points_to c.io_handler iop) } in
      let c1 = error (close_handler c0 iop) (some iop) err in
      call c1 (callback (call_io_state_chg_cb c1.entity_common iop 0 false))

  unfoldable pub notify_me : TcpConnector B E C → ErrorCode → ℕ → TcpConnector B E C
  notify_me c err iop = (stop (tell_end c err iop)).1

  -- The calls that a method of the io handler at `iop` makes: a notification is `notify_me`, and the
  -- operations of the socket complete as events of their own.
  unfoldable pub handle_calls :
      {H F : Type 0} → TcpConnector B E C → ℕ → List (TcpEffect B H F) → TcpConnector B E C
  handle_calls c iop [] = c
  handle_calls c iop (notify err ∷ xs) = handle_calls (notify_me c err iop) iop xs
  handle_calls c iop (_ ∷ xs) = handle_calls c iop xs

  -- A method of the handler at `iop` was called, with this result.
  abbrev pub after_method :
      {H F : Type 0}
      → TcpConnector B E C
      → ℕ
      → TcpIo B E × List (TcpEffect B H F)
      → TcpConnector B E C
  after_method c iop (io, xs) = handle_calls (record c { heap = update c.heap iop io }) iop xs
