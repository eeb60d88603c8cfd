-- ===== src/TcpAcceptor/Ready.antt =====
-- What every method of net_ip/detail/tcp_acceptor.hpp keeps of an acceptor that was started once: any
-- property of its handlers, of the next address and of its calls that the three kinds of change keep.
use chops.Prelude.{
  ℕ, suc, ◌≡◌, ◌⊎◌, inl, inr, refl, Bool, true, false, Option, none, some, List, [], ◌∷◌, ◌++◌,
  ◌==◌, length, Bool-cases, EraseWhere, without, erase_where-without, arith,
}
use chops.NetIpError.{ErrorCode, make_error_code, is_error, tcp_acceptor_stopped}
use chops.NetEntityCommon.{
  NetEntityCommon, Callback, io_state_chg, error_call, call_error_cb, call_io_state_chg_cb,
}
use chops.TcpIo.{
  TcpIo, TcpEffect, notify, async_read, async_read_until, async_write, shutdown_socket,
  close_socket,
}
use chops.TcpIo
use chops.TcpAcceptor.{
  TcpAcceptor, new_tcp_acceptor, notify_me, handle_calls, after_method, stop_handler, stop_handlers,
  stop, start, handle_accept, call_back,
}

-- A property of the handlers, the next address and the calls that is kept when a connection is
-- accepted and announced, when the end of a connection is told, and when an error is told.
pub record Kept {C : Type 0} (P : List ℕ → ℕ → List (Callback C) → Type 0) : Type 0 where
  pub accepts :
      (hs : List ℕ) (n : ℕ) (cs : List (Callback C)) (f : C)
      → P hs n cs
      → P (hs ++ n ∷ []) (suc n) (cs ++ io_state_chg f n (length (hs ++ n ∷ [])) true ∷ [])
  pub ends :
      (hs : List ℕ) (n : ℕ) (cs : List (Callback C)) (f g : C) (p : ℕ) (err : ErrorCode)
      → P hs n cs
      → let rest = without ◌==◌ hs p in
        P rest n
          ((cs ++ error_call g (some p) err ∷ []) ++ io_state_chg f p (length rest) false ∷ [])
  pub errors :
      (hs : List ℕ) (n : ℕ) (cs : List (Callback C)) (g : C) (p : Option ℕ) (err : ErrorCode)
      → P hs n cs
      → P hs n (cs ++ error_call g p err ∷ [])

module _ {B E C : Type 0} where
  -- One that was not started yet.
  pub record IsNew (a : TcpAcceptor B E C) : Type 0 where
    pub not_started : a.entity_common.started ≡ false
    pub no_accepts : a.accepts ≡ 0
    pub no_objects : a.next_address ≡ 0
    pub no_handlers : a.io_handlers ≡ []
    pub no_calls : a.calls ≡ []

  pub new_tcp_acceptor-IsNew :
      (default_endp endp : E) (reuse_addr : Bool)
      → IsNew (new_tcp_acceptor {B = B} {C = C} default_endp endp reuse_addr)
  unfolding new_tcp_acceptor
  new_tcp_acceptor-IsNew default_endp endp reuse_addr = record {
    not_started = refl;
    no_accepts = refl;
    no_objects = refl;
    no_handlers = refl;
    no_calls = refl;
  }

module _ {B E C : Type 0} (P : List ℕ → ℕ → List (Callback C) → Type 0) where
  -- One that was started once: it has its callbacks.
  pub record IsReady (a : TcpAcceptor B E C) : Type 0 where
    pub holds : P a.io_handlers a.next_address a.calls
    pub state_cb : C
    pub err_cb : C
    pub has_io_state_chg : a.entity_common.io_state_chg_cb ≡ some state_cb
    pub has_error : a.entity_common.error_cb ≡ some err_cb

  abbrev pub IsSound : TcpAcceptor B E C → Type 0
  IsSound a = IsNew a ⊎ IsReady a

module _ {B E C : Type 0} {P : List ℕ → ℕ → List (Callback C) → Type 0} (k : Kept P)
    ⦃er : EraseWhere ℕ ◌==◌⦄ where
  notify_me-IsReady :
      (a : TcpAcceptor B E C) (err : ErrorCode) (p : ℕ)
      → IsReady P a
      → IsReady P (notify_me a err p)
  unfolding notify_me call_error_cb call_io_state_chg_cb
  notify_me-IsReady a err p v = record {
    holds =
        rw (erase_where-without er a.io_handlers p, v.has_io_state_chg, v.has_error)
          (k.ends a.io_handlers a.next_address a.calls v.state_cb v.err_cb p err v.holds);
    state_cb = v.state_cb;
    err_cb = v.err_cb;
    has_io_state_chg = v.has_io_state_chg;
    has_error = v.has_error;
  }

  handle_calls-IsReady :
      {H F : Type 0} (cs : List (TcpEffect B H F)) (a : TcpAcceptor B E C) (p : ℕ)
      → IsReady P a
      → IsReady P (handle_calls a p cs)
  unfolding handle_calls
  handle_calls-IsReady [] a p v = v
  handle_calls-IsReady (notify err ∷ cs) a p v =
      handle_calls-IsReady cs (notify_me a err p) p (notify_me-IsReady a err p v)
  handle_calls-IsReady (async_read _ _ _ _ ∷ cs) a p v = handle_calls-IsReady cs a p v
  handle_calls-IsReady (async_read_until _ ∷ cs) a p v = handle_calls-IsReady cs a p v
  handle_calls-IsReady (async_write _ ∷ cs) a p v = handle_calls-IsReady cs a p v
  handle_calls-IsReady (shutdown_socket ∷ cs) a p v = handle_calls-IsReady cs a p v
  handle_calls-IsReady (close_socket ∷ cs) a p v = handle_calls-IsReady cs a p v

  pub after_method-IsReady :
      {H F : Type 0} (a : TcpAcceptor B E C) (p : ℕ) (r : TcpIo B E × List (TcpEffect B H F))
      → IsReady P a
      → IsReady P (after_method a p r)
  after_method-IsReady a p r v = handle_calls-IsReady r.1 _ p (record {
    holds = v.holds;
    state_cb = v.state_cb;
    err_cb = v.err_cb;
    has_io_state_chg = v.has_io_state_chg;
    has_error = v.has_error;
  })

  stop_handlers-IsReady :
      (ps : List ℕ) (a : TcpAcceptor B E C) → IsReady P a → IsReady P (stop_handlers a ps)
  unfolding stop_handlers stop_handler
  stop_handlers-IsReady [] a v = v
  stop_handlers-IsReady (p ∷ ps) a v =
      let r = TcpIo.stop_io {H = Unit {0}} {F = Unit {0}} (a.heap p) in
      stop_handlers-IsReady ps (stop_handler a p) (after_method-IsReady a p (r.1, r.2) v)

  -- A flag that changes has no part in it.
  started-IsReady :
      (a : TcpAcceptor B E C) (st : Bool)
      → IsReady P a
      → IsReady P (record a { entity_common = record a.entity_common { started = st } })
  started-IsReady a st v = record {
    holds = v.holds;
    state_cb = v.state_cb;
    err_cb = v.err_cb;
    has_io_state_chg = v.has_io_state_chg;
    has_error = v.has_error;
  }

  error_call-IsReady :
      (a : TcpAcceptor B E C) (p : Option ℕ) (err : ErrorCode)
      → IsReady P a
      → IsReady P (call_back a (call_error_cb a.entity_common p err))
  unfolding call_error_cb
  error_call-IsReady a p err v = record {
    holds = rw v.has_error (k.errors a.io_handlers a.next_address a.calls v.err_cb p err v.holds);
    state_cb = v.state_cb;
    err_cb = v.err_cb;
    has_io_state_chg = v.has_io_state_chg;
    has_error = v.has_error;
  }

  stop_at-IsReady :
      (st : Bool) (a : TcpAcceptor B E C)
      → IsReady P a
      → IsReady P (stop (record a { entity_common = record a.entity_common { started = st } })).1
  unfolding stop
  stop_at-IsReady false a v = started-IsReady a false v
  stop_at-IsReady true a v =
      let a0 = record a { entity_common = record a.entity_common { started = false } } in
      let v1 = stop_handlers-IsReady a.io_handlers a0 (started-IsReady a false v) in
      let v2 =
        error_call-IsReady (stop_handlers a0 a.io_handlers) none
          (make_error_code tcp_acceptor_stopped) v1 in
      record {
        holds = v2.holds;
        state_cb = v2.state_cb;
        err_cb = v2.err_cb;
        has_io_state_chg = v2.has_io_state_chg;
        has_error = v2.has_error;
      }

  pub stop-IsReady : (a : TcpAcceptor B E C) → IsReady P a → IsReady P (stop a).1
  stop-IsReady a v = stop_at-IsReady a.entity_common.started a v

  pub start_at-IsReady :
      (st : Bool) (a : TcpAcceptor B E C) (cs ce : C) (opened : Option ErrorCode)
      → P a.io_handlers a.next_address a.calls
      → (st ≡ false) ⊎ IsReady P a
      → IsReady P
          (start
            (record a { entity_common = record a.entity_common { started = st } })
            cs
            ce
            opened).1
  unfolding start
  start_at-IsReady true a cs ce opened now (inl e) = cc
  start_at-IsReady true a cs ce opened now (inr v) = started-IsReady a true v
  start_at-IsReady false a cs ce none now v = record {
    holds = now;
    state_cb = cs;
    err_cb = ce;
    has_io_state_chg = refl;
    has_error = refl;
  }
  start_at-IsReady false a cs ce (some code) now v =
      let c : NetEntityCommon C = record {
        started = true;
        io_state_chg_cb = some cs;
        error_cb = some ce;
      } in
      let a0 = record a { entity_common = c } in
      stop-IsReady (call_back a0 (call_error_cb c none code)) (
        error_call-IsReady a0 none code (record {
          holds = now;
          state_cb = cs;
          err_cb = ce;
          has_io_state_chg = refl;
          has_error = refl;
        }))

  pub handle_accept-IsReady :
      (a : TcpAcceptor B E C) (err : ErrorCode) (endp : E)
      → IsReady P a
      → IsReady P (handle_accept a err endp)
  unfolding handle_accept call_io_state_chg_cb
  handle_accept-IsReady a err endp v = elim (Bool-cases (is_error err)) [
    | inl failed ↦ rw failed (stop-IsReady _ (error_call-IsReady a none err v))
    | inr fine ↦ rw fine (record {
      holds =
          rw v.has_io_state_chg (k.accepts a.io_handlers a.next_address a.calls v.state_cb v.holds);
      state_cb = v.state_cb;
      err_cb = v.err_cb;
      has_io_state_chg = v.has_io_state_chg;
      has_error = v.has_error;
    })
  ]

module _ {B E C : Type 0} ⦃er : EraseWhere ℕ ◌==◌⦄ where
  pub stop-IsNew : (a : TcpAcceptor B E C) → IsNew a → IsNew (stop a).1
  unfolding stop
  stop-IsNew a v = ground arith
