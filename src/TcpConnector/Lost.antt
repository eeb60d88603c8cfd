-- ===== src/TcpConnector/Lost.antt =====
-- The end of a connection of net_ip/detail/tcp_connector.hpp, and what still completes after a `stop`.
use chops.Prelude.{
  ℕ, ◌≡◌, refl, ap, ◌∙◌, Bool, true, false, none, some, List, [], ◌∷◌, ◌++◌, ◌<◌, append_assoc,
  append-nil, lt→ltb, ==_refl, ◌||◌, not, sym, subst, if◌then◌else◌,
}
use chops.NetIpError.{ErrorCode, no_error, is_error}
use chops.OutputQueue.{SharedBuffer}
use chops.MsgFrame.{MsgHdlr, MsgFrame}
use chops.NetEntityCommon
use chops.TcpAcceptor.{update}
use chops.NetEntityCommon.{io_state_chg, error_call, call_error_cb, call_io_state_chg_cb}
use chops.TcpIo.{notify}
use chops.TcpIo
use chops.TcpConnector.{
  TcpConnector, ConnectorCall, callback, async_connect, handle_connect, handle_calls, notify_me,
  tell_end, stop, points_to, is_started, handle_wait,
}
use chops.TcpConnector.Stopping.{stop_calls, stopped, stop-stopped}
use chops.TcpConnector.Histories.{stops, connected, waited, reads, step, run}

-- What the application is told when the connection of the handler at `p` ends.
abbrev pub end_calls : {E C : Type 0} → C → C → ℕ → ErrorCode → List (ConnectorCall E C)
end_calls fs fe p err =
    callback (error_call fe (some p) err) ∷ callback (io_state_chg fs p 0 false) ∷ []

module _ {B E C : Type 0} where
  -- What `notify_me` does before its `stop`.
  record Tells (c c' : TcpConnector B E C) (fs fe : C) (err : ErrorCode) (p : ℕ) : Type 0 where
    told : c'.calls ≡ c.calls ++ end_calls fs fe p err
    assert : c'.failed_assert ≡ (c.failed_assert || not (points_to c.io_handler p))
    entity : c'.entity_common ≡ c.entity_common
    endpoints : c'.endpoints ≡ c.endpoints
    io_handler : c'.io_handler ≡ c.io_handler
    next : c'.next_address ≡ c.next_address

  tell_end-Tells :
      (c : TcpConnector B E C) (fs fe : C) (err : ErrorCode) (p : ℕ)
      → c.entity_common.io_state_chg_cb ≡ some fs
      → c.entity_common.error_cb ≡ some fe
      → Tells c (tell_end c err p) fs fe err p
  unfolding tell_end call_error_cb call_io_state_chg_cb
  tell_end-Tells c fs fe err p cs ce = record {
    told = rw (cs, ce) (append_assoc c.calls _ _);
    assert = refl;
    entity = refl;
    endpoints = refl;
    io_handler = refl;
    next = refl;
  }

  -- `notify_me` of a connector that is started, and of one that is not.
  pub record Ends (c c' : TcpConnector B E C) (fs fe : C) (err : ErrorCode) (p : ℕ) : Type 0 where
    pub assert : c'.failed_assert ≡ (c.failed_assert || not (points_to c.io_handler p))
    pub off : c'.entity_common.started ≡ false
    pub told :
        c'.calls
        ≡ c.calls
          ++ end_calls fs fe p err
          ++ (if c.entity_common.started then stop_calls c.endpoints c.io_handler fe else [])
    pub next : c'.next_address ≡ c.next_address
    pub same_io_state_chg_cb : c'.entity_common.io_state_chg_cb ≡ c.entity_common.io_state_chg_cb
    pub same_error_cb : c'.entity_common.error_cb ≡ c.entity_common.error_cb
    pub io_handler : c'.io_handler ≡ (if c.entity_common.started then none else c.io_handler)

  stopped-Ends :
      (started : Bool) (c d : TcpConnector B E C) (fs fe : C) (err : ErrorCode) (p : ℕ)
      → c.entity_common.started ≡ started
      → Tells c d fs fe err p
      → Ends c (stopped d fe).1 fs fe err p
  stopped-Ends true c d fs fe err p on t =
      rw (on, t.entity, on)
        (record {
          assert = t.assert;
          off = refl;
          next = t.next;
          same_io_state_chg_cb = refl;
          same_error_cb = refl;
          told = rw (t.told, t.endpoints, t.io_handler) refl;
          io_handler = refl;
        })
  stopped-Ends false c d fs fe err p off t =
      rw (off, t.entity, off)
        (record {
          assert = t.assert;
          off = refl;
          next = t.next;
          same_io_state_chg_cb = refl;
          same_error_cb = refl;
          told = t.told ∙ sym (append-nil _);
          io_handler = t.io_handler;
        })

  pub notify_me-Ends :
      (c : TcpConnector B E C) (fs fe : C) (err : ErrorCode) (p : ℕ)
      → c.entity_common.io_state_chg_cb ≡ some fs
      → c.entity_common.error_cb ≡ some fe
      → Ends c (notify_me c err p) fs fe err p
  unfolding notify_me
  notify_me-Ends c fs fe err p cs ce =
      let t = tell_end-Tells c fs fe err p cs ce in
      subst (λ r. Ends c r.1 fs fe err p)
        (sym (stop-stopped (tell_end c err p) fe (ap (λ e. e.error_cb) t.entity ∙ ce)))
        (stopped-Ends c.entity_common.started c (tell_end c err p) fs fe err p refl t)

or_false : (x : Bool) → (x || false) ≡ x
or_false true = refl
or_false false = refl

pub or_true : (x : Bool) → (x || true) ≡ true
or_true true = refl
or_true false = refl

module _ {B E C : Type 0} where
  -- `stop` of a started connector.
  record Stops (c c' : TcpConnector B E C) (fe : C) : Type 0 where
    off : c'.entity_common.started ≡ false
    same_io_state_chg_cb : c'.entity_common.io_state_chg_cb ≡ c.entity_common.io_state_chg_cb
    same_error_cb : c'.entity_common.error_cb ≡ c.entity_common.error_cb
    gone : c'.io_handler ≡ none
    same_endpoints : c'.endpoints ≡ c.endpoints
    same_next : c'.next_address ≡ c.next_address
    told : c'.calls ≡ c.calls ++ stop_calls c.endpoints c.io_handler fe

  stop-Stops :
      (c : TcpConnector B E C) (fe : C)
      → c.entity_common.started ≡ true
      → c.entity_common.error_cb ≡ some fe
      → Stops c (stop c).1 fe
  stop-Stops c fe on ce =
      rw (stop-stopped c fe ce, on)
        (record {
          off = refl;
          same_io_state_chg_cb = refl;
          same_error_cb = refl;
          gone = refl;
          same_endpoints = refl;
          same_next = refl;
          told = refl;
        })

module _ {B E C H F : Type 0} ⦃b : SharedBuffer B⦄ ⦃h : MsgHdlr H E⦄ ⦃f : MsgFrame F⦄ where
  pub reads-Ends :
      (c : TcpConnector B E C) (fs fe : C) (p off len : ℕ) (err : ErrorCode) (mh : H) (mf : F)
      → c.entity_common.io_state_chg_cb ≡ some fs
      → c.entity_common.error_cb ≡ some fe
      → p < c.next_address
      → is_error err ≡ true
      → Ends c (step c (reads p off len err mh mf)) fs fe err p
  unfolding step handle_calls TcpIo.handle_read
  reads-Ends c fs fe p off len err mh mf cs ce there bad =
      rw (lt→ltb p c.next_address there, bad)
        (let v =
            notify_me-Ends (record c { heap = update c.heap p (c.heap p) }) fs fe err p cs ce in
          record {
            assert = v.assert;
            off = v.off;
            told = v.told;
            next = v.next;
            same_io_state_chg_cb = v.same_io_state_chg_cb;
            same_error_cb = v.same_error_cb;
            io_handler = v.io_handler;
          })

  -- Where the connector is started, has both callbacks, and the handler at `p` is its own: when a
  -- read of this handler fails, the application is told of the error and of the state change, and the
  -- connector stops. It is left not started and without a handler, and makes no other connect.
  pub run_reads-stop_calls :
      (c : TcpConnector B E C) (fs fe : C) (p off len : ℕ) (err : ErrorCode) (mh : H) (mf : F)
      → c.entity_common.started ≡ true
      → c.entity_common.io_state_chg_cb ≡ some fs
      → c.entity_common.error_cb ≡ some fe
      → c.io_handler ≡ some p
      → p < c.next_address
      → is_error err ≡ true
      → let c' = run c (reads p off len err mh mf ∷ []) in
        (is_started c' ≡ false)
        × (c'.io_handler ≡ none)
        × (c'.failed_assert ≡ c.failed_assert)
        × (c'.calls ≡ c.calls ++ end_calls fs fe p err ++ stop_calls c.endpoints (some p) fe)
  unfolding run is_started NetEntityCommon.is_started
  run_reads-stop_calls c fs fe p off len err mh mf on cs ce mine there bad =
      let v = reads-Ends c fs fe p off len err mh mf cs ce there bad in
      (
        v.off,
        v.io_handler ∙ rw on refl,
        v.assert ∙ rw (mine, ==_refl p) (or_false c.failed_assert),
        v.told ∙ rw (on, mine) refl,
      )

  -- Where the connector is started, has both callbacks, and the handler at `p` is its own: when it is
  -- stopped while this handler reads, and the read fails as its socket was closed, the assertion of
  -- `notify_me` fails. The application is told of the end of the connection after
  -- `tcp_connector_stopped`.
  pub run_stops-reads :
      (c : TcpConnector B E C) (fs fe : C) (p off len : ℕ) (err : ErrorCode) (mh : H) (mf : F)
      → c.entity_common.started ≡ true
      → c.entity_common.io_state_chg_cb ≡ some fs
      → c.entity_common.error_cb ≡ some fe
      → c.io_handler ≡ some p
      → p < c.next_address
      → is_error err ≡ true
      → let c' = run c (stops ∷ reads p off len err mh mf ∷ []) in
        (c'.failed_assert ≡ true)
        × (c'.calls ≡ c.calls ++ stop_calls c.endpoints (some p) fe ++ end_calls fs fe p err)
  unfolding run step
  run_stops-reads c fs fe p off len err mh mf on cs ce mine there bad =
      let t = stop-Stops c fe on ce in
      let v =
        reads-Ends (stop c).1 fs fe p off len err mh mf (t.same_io_state_chg_cb ∙ cs)
          (t.same_error_cb ∙ ce) (subst (λ n. p < n) (sym t.same_next) there) bad in
      (
        v.assert ∙ rw t.gone (or_true (stop c).1.failed_assert),
        v.told ∙ rw (t.off, append-nil, t.told, mine) refl,
      )

module _ {B E C : Type 0} where
  -- A wait and then a connect, both of which succeed, whether the connector is started or not.
  late :
      (c : TcpConnector B E C) (fs : C) (endp : E)
      → c.entity_common.io_state_chg_cb ≡ some fs
      → (handle_connect (handle_wait c no_error) no_error none endp).calls
        ≡ c.calls
          ++ async_connect c.endpoints ∷ callback (io_state_chg fs c.next_address 1 true) ∷ []
  unfolding handle_connect call_io_state_chg_cb
  late c fs endp cs = rw cs (append_assoc c.calls _ _)

module _ {E C : Type 0} (B H F : Type 0) ⦃b : SharedBuffer B⦄ ⦃h : MsgHdlr H E⦄
    ⦃f : MsgFrame F⦄ where
  -- Where the connector is started, has both callbacks and no handler: when it is stopped after its
  -- wait has completed, and before the completion handler runs, it connects once more. A connect that
  -- succeeds then creates a handler and announces it, on a connector that is not started.
  pub run_stops-connects :
      (c : TcpConnector B E C) (fs fe : C) (endp : E)
      → c.entity_common.started ≡ true
      → c.entity_common.io_state_chg_cb ≡ some fs
      → c.entity_common.error_cb ≡ some fe
      → c.io_handler ≡ none
      → let c' =
          run {H = H} {F = F} c (stops ∷ waited no_error ∷ connected no_error none endp ∷ []) in
        (is_started c' ≡ false)
        × (c'.io_handler ≡ some c.next_address)
        × (c'.calls
            ≡ c.calls
              ++ stop_calls c.endpoints none fe
              ++ async_connect c.endpoints ∷ callback (io_state_chg fs c.next_address 1 true) ∷ [])
  unfolding run step handle_connect is_started NetEntityCommon.is_started
  run_stops-connects c fs fe endp on cs ce gone =
      let t = stop-Stops c fe on ce in
      (
        t.off,
        ap some t.same_next,
        late (stop c).1 fs endp (t.same_io_state_chg_cb ∙ cs)
            ∙ rw (t.told, t.same_endpoints, t.same_next, gone) refl,
      )
