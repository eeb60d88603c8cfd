-- ===== src/TcpAcceptor.antt =====
-- net_ip/detail/tcp_acceptor.hpp: the TCP acceptor and the io handlers of its connections. The
-- handlers are objects on a heap, and `m_io_handlers` holds their addresses. A method returns the
-- acceptor with the calls that it made of the application's callbacks added to `calls`, newest last,
-- and with its accepts on the socket counted.
use chops.Prelude.{
  ℕ, suc, ◌+◌, Bool, true, false, not, Option, none, some, List, [], ◌∷◌, ◌++◌, length, ◌==◌,
  if◌then◌else◌, EraseWhere,
}
use chops.NetIpError.{ErrorCode, make_error_code, is_error, tcp_acceptor_stopped}
use chops.NetEntityCommon
use chops.NetEntityCommon.{
  NetEntityCommon, Callback, new_net_entity_common, call_io_state_chg_cb, call_error_cb,
}
use chops.TcpIo.{
  TcpIo, TcpEffect, async_read, async_read_until, async_write, shutdown_socket, close_socket,
  notify, new_tcp_io,
}
use chops.TcpIo
pub mod Addresses
pub mod Closing
pub mod Stopping
pub mod Histories
pub mod Ready
pub mod Induction
pub mod Soundness
pub mod Listing
pub mod Notices
mod Examples

pub record TcpAcceptor (B E C : Type 0) : Type 0 where
  pub entity_common : NetEntityCommon C
  pub is_open : Bool  -- whether m_acceptor is open
  pub io_handlers : List ℕ
  pub acceptor_endp : E
  pub reuse_addr : Bool
  pub heap : ℕ → TcpIo B E
  pub next_address : ℕ
  pub accepts : ℕ  -- the calls of async_accept that have not completed
  pub calls : List (Callback C)

-- The object at an address is replaced.
abbrev pub update {ℓ} : {A : Type ℓ} → (ℕ → A) → ℕ → A → ℕ → A
update heap p v q = if p == q then v else heap q

module _ {B E C : Type 0} where
  abbrev pub call_back : TcpAcceptor B E C → Callback C → TcpAcceptor B E C
  call_back a c = record a { calls = a.calls ++ c ∷ [] }

  -- The constructor; nothing is on the heap yet.
  unfoldable pub new_tcp_acceptor : E → E → Bool → TcpAcceptor B E C
  unfolding new_net_entity_common new_tcp_io
  new_tcp_acceptor default_endp endp reuse_addr = record {
    entity_common = new_net_entity_common;
    is_open = false;
    io_handlers = [];
    acceptor_endp = endp;
    reuse_addr = reuse_addr;
    heap = λ p. new_tcp_io default_endp;
    next_address = 0;
    accepts = 0;
    calls = [];
  }

  unfoldable pub is_started : TcpAcceptor B E C → Bool
  unfolding NetEntityCommon.is_started
  is_started a = NetEntityCommon.is_started a.entity_common

module _ {B E C : Type 0} ⦃er : EraseWhere ℕ ◌==◌⦄ where
  -- `iop->close()`; what it calls of the socket has no part in the acceptor.
  abbrev pub close_handler : TcpAcceptor B E C → ℕ → TcpAcceptor B E C
  close_handler a iop = record a {
    heap = update a.heap iop (TcpIo.close {H = Unit {0}} {F = Unit {0}} (a.heap iop)).0;
  }

  unfoldable pub notify_me : TcpAcceptor B E C → ErrorCode → ℕ → TcpAcceptor B E C
  notify_me a err iop =
      let closed = close_handler a iop in
      let told = call_back closed (call_error_cb a.entity_common (some iop) err) in
      let rest = er.erase_where a.io_handlers iop in
      call_back (record told { io_handlers = rest })
        (call_io_state_chg_cb a.entity_common iop (length rest) false)

  -- The calls that a method of the io handler at `iop` makes: a notification is `notify_me`, and the
  -- operations of the socket complete as events of their own.
  unfoldable pub handle_calls :
      {H F : Type 0} → TcpAcceptor B E C → ℕ → List (TcpEffect B H F) → TcpAcceptor B E C
  handle_calls a iop [] = a
  handle_calls a iop (notify err ∷ cs) = handle_calls (notify_me a err iop) iop cs
  handle_calls a iop (_ ∷ cs) = handle_calls a iop cs

  -- A method of the handler at `iop` was called, with this result.
  abbrev pub after_method :
      {H F : Type 0}
      → TcpAcceptor B E C
      → ℕ
      → TcpIo B E × List (TcpEffect B H F)
      → TcpAcceptor B E C
  after_method a iop (io, cs) = handle_calls (record a { heap = update a.heap iop io }) iop cs

  -- One round of the loop of `stop`, and the loop over its copy of `m_io_handlers`.
  unfoldable pub stop_handler : TcpAcceptor B E C → ℕ → TcpAcceptor B E C
  unfolding handle_calls notify_me TcpIo.stop_io
  stop_handler a iop =
      let result = TcpIo.stop_io {H = Unit {0}} {F = Unit {0}} (a.heap iop) in
      after_method a iop (result.1, result.2)

  unfoldable pub stop_handlers : TcpAcceptor B E C → List ℕ → TcpAcceptor B E C
  stop_handlers a [] = a
  stop_handlers a (iop ∷ iops) = stop_handlers (stop_handler a iop) iops

  unfoldable pub stop : TcpAcceptor B E C → Bool × TcpAcceptor B E C
  unfolding NetEntityCommon.stop
  stop a =
      let (stopped, c) = NetEntityCommon.stop a.entity_common in
      let a0 = record a { entity_common = c } in
      if not stopped
      then (false, a0)
      else let a1 = stop_handlers a0 a0.io_handlers in
        let a2 =
          call_back a1
            (call_error_cb a1.entity_common none (make_error_code tcp_acceptor_stopped)) in
        (true, record a2 { is_open = false })

  abbrev pub start_accept : TcpAcceptor B E C → TcpAcceptor B E C
  start_accept a = record a { accepts = suc a.accepts }

  -- `opened` is the error code that the construction of the acceptor socket throws, if any.
  unfoldable pub start : TcpAcceptor B E C → C → C → Option ErrorCode → Bool × TcpAcceptor B E C
  unfolding NetEntityCommon.start
  start a io_state_chg err_func opened =
      let (started, c) = NetEntityCommon.start a.entity_common io_state_chg err_func in
      let a0 = record a { entity_common = c } in
      if not started then (false, a0) else elim opened [
        | none ↦ (true, start_accept (record a0 { is_open = true }))
        | some code ↦ (false, (stop (call_back a0 (call_error_cb c none code))).1)
      ]

  -- The completion handler of `start_accept`. The new io handler has no remote endpoint yet: `endp`
  -- is the endpoint that is constructed by default.
  unfoldable pub handle_accept : TcpAcceptor B E C → ErrorCode → E → TcpAcceptor B E C
  handle_accept a err endp =
      if is_error err
      then (stop (call_back a (call_error_cb a.entity_common none err))).1
      else (let iop = a.next_address in
          let iops = a.io_handlers ++ iop ∷ [] in
          let a0 = record a {
            heap = update a.heap iop (new_tcp_io endp);
            next_address = suc iop;
            io_handlers = iops;
          } in
          start_accept (call_back a0 (call_io_state_chg_cb a.entity_common iop (length iops) true)))
