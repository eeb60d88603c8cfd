-- ===== src/TcpAcceptor/Notices.antt =====
-- How often the application is told of the end of one connection by net_ip/detail/tcp_acceptor.hpp.
use chops.Prelude.{
  ℕ, ◌≡◌, ◌<◌, refl, ap, ◌∙◌, true, false, some, List, [], ◌∷◌, ◌++◌, ◌==◌, lt→ltb, length,
  append_assoc, EraseWhere, erase_where-without, without, arith,
}
use chops.NetIpError.{ErrorCode, make_error_code, is_error, tcp_io_handler_stopped}
use chops.NetEntityCommon.{Callback, io_state_chg, error_call, call_io_state_chg_cb, call_error_cb}
use chops.OutputQueue.{SharedBuffer}
use chops.MsgFrame.{MsgHdlr, MsgFrame}
use chops.TcpIo
use chops.TcpIo.{TcpIo, TcpEffect, notify}
use chops.TcpAcceptor.{TcpAcceptor, notify_me, handle_calls, update}
use chops.TcpAcceptor.Histories.{stops_io, reads, on_handler, step, run}

-- No address is left where it was erased.
without-without : (ps : List ℕ) (p : ℕ) → without ◌==◌ (without ◌==◌ ps p) p ≡ without ◌==◌ ps p
without-without [] p = refl
without-without (q ∷ qs) p = ground (arith, without-without qs p)

-- The two calls that one notification makes.
abbrev pub notices : {C : Type 0} → C → C → ℕ → ErrorCode → ℕ → List (Callback C)
notices fs fe p err n = error_call fe (some p) err ∷ io_state_chg fs p n false ∷ []

module _ {B E C : Type 0} ⦃er : EraseWhere ℕ ◌==◌⦄ where
  record Notifies (fs fe : C) (p : ℕ) (err : ErrorCode) (a a' : TcpAcceptor B E C) : Type 0 where
    told : a'.calls ≡ a.calls ++ notices fs fe p err (length (without ◌==◌ a.io_handlers p))
    left : a'.io_handlers ≡ without ◌==◌ a.io_handlers p
    entity : a'.entity_common ≡ a.entity_common
    objects : a'.next_address ≡ a.next_address

  notify_me-Notifies :
      (a : TcpAcceptor B E C) (fs fe : C) (p : ℕ) (err : ErrorCode)
      → a.entity_common.io_state_chg_cb ≡ some fs
      → a.entity_common.error_cb ≡ some fe
      → Notifies fs fe p err a (notify_me a err p)
  unfolding notify_me call_error_cb call_io_state_chg_cb
  notify_me-Notifies a fs fe p err cs ce = record {
    told =
        rw (cs, ce, erase_where-without er a.io_handlers p)
          (append_assoc a.calls (error_call fe (some p) err ∷ []) _);
    left = erase_where-without er a.io_handlers p;
    entity = refl;
    objects = refl;
  }

module _ {B E C H F : Type 0} ⦃er : EraseWhere ℕ ◌==◌⦄ ⦃b : SharedBuffer B⦄ ⦃h : MsgHdlr H E⦄
    ⦃f : MsgFrame F⦄ where
  -- So does every method of an io handler whose one call is a notification.
  on_handler-Notifies :
      (a : TcpAcceptor B E C) (fs fe : C) (p : ℕ) (err : ErrorCode)
      (r : TcpIo B E × List (TcpEffect B H F))
      → a.entity_common.io_state_chg_cb ≡ some fs
      → a.entity_common.error_cb ≡ some fe
      → p < a.next_address
      → r.1 ≡ notify err ∷ []
      → Notifies fs fe p err a (on_handler a p r)
  unfolding handle_calls
  on_handler-Notifies a fs fe p err r cs ce there e =
      let v = notify_me-Notifies (record a { heap = update a.heap p r.0 }) fs fe p err cs ce in
      rw (lt→ltb p a.next_address there, e)
        (record { told = v.told; left = v.left; entity = v.entity; objects = v.objects })

  -- Where both callbacks are set: when the io of a handler is stopped while it reads, and its read then fails as the socket was
  -- closed, the application is told twice that the connection ended: of `tcp_io_handler_stopped` and
  -- of the error of the read, each with a state change.
  pub run-stops_io-reads :
      (a : TcpAcceptor B E C) (fs fe : C) (p off len : ℕ) (err : ErrorCode) (mh : H) (mf : F)
      → a.entity_common.io_state_chg_cb ≡ some fs
      → a.entity_common.error_cb ≡ some fe
      → p < a.next_address
      → (a.heap p).io_common.io_started ≡ true
      → is_error err ≡ true
      → let left = length (without ◌==◌ a.io_handlers p) in
        (run a (stops_io p ∷ reads p off len err mh mf ∷ [])).calls
        ≡ a.calls
          ++ notices fs fe p (make_error_code tcp_io_handler_stopped) left
          ++ notices fs fe p err left
  unfolding run step TcpIo.stop_io TcpIo.handle_read
  run-stops_io-reads a fs fe p off len err mh mf cs ce there live bad =
      let r = TcpIo.stop_io {H = H} {F = F} (a.heap p) in
      let a1 = on_handler a p (r.1, r.2) in
      let v1 =
        on_handler-Notifies a fs fe p (make_error_code tcp_io_handler_stopped) (r.1, r.2) cs ce
          there (rw live) in
      let r2 = TcpIo.handle_read (a1.heap p) off len err mh mf in
      let v2 =
        on_handler-Notifies a1 fs fe p err (r2.0, r2.1) (ap (λ c. c.io_state_chg_cb) v1.entity ∙ cs)
          (ap (λ c. c.error_cb) v1.entity ∙ ce) (ground (arith, v1.objects)) (rw bad) in
      v2.told ∙ rw (v1.told, v1.left, without-without a.io_handlers p)
