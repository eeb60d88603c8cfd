-- ===== src/TcpConnector/Retrying.antt =====
-- The connects of a TCP connector of net_ip/detail/tcp_connector.hpp, which are repeated until one
-- succeeds.
use chops.Prelude.{
  ℕ, suc, ◌≡◌, refl, ap, subst, sym, ◌∙◌, Bool, true, false, and-both, none, some, List, [], ◌∷◌,
  ◌++◌, append_assoc, append-nil, ◌&&◌, ==_refl,
}
use chops.NetIpError.{ErrorCode, no_error, is_error}
use chops.OutputQueue.{SharedBuffer}
use chops.MsgFrame.{MsgHdlr, MsgFrame}
use chops.TcpIo.{new_tcp_io}
use chops.NetEntityCommon
use chops.NetEntityCommon.{Callback, io_state_chg, error_call, call_error_cb, call_io_state_chg_cb}
use chops.TcpConnector.{
  TcpConnector, ConnectorCall, callback, async_connect, async_wait, make_endpoints, handle_connect,
  handle_resolve, is_started, new_tcp_connector, handle_wait, start, new_resolving_connector,
}
use chops.TcpConnector.Histories.{Event, starts, resolved, connected, waited, step, run}

abbrev pub all_errors : List ErrorCode → Bool
all_errors [] = true
all_errors (err ∷ errs) = is_error err && all_errors errs

-- Connects that fail with these errors, a wait after each, and at last one that succeeds.
abbrev pub tries : {B E C H F : Type 0} → E → List ErrorCode → List (Event B E C H F)
tries endp [] = connected no_error none endp ∷ []
tries endp (err ∷ errs) = connected err none endp ∷ waited no_error ∷ tries endp errs

-- What the connector calls for these failures.
abbrev pub retries : {E C : Type 0} → C → ℕ → List E → List ErrorCode → List (ConnectorCall E C)
retries fe time endpoints [] = []
retries fe time endpoints (err ∷ errs) =
    callback (error_call fe none err)
    ∷ async_wait time
    ∷ async_connect endpoints
    ∷ retries fe time endpoints errs

module _ {B E C : Type 0} where
  -- The handler that the connector `c` announces next is the one of `c'`, and `new` was called before.
  pub record Connects (c c' : TcpConnector B E C) (fs : C) (new : List (ConnectorCall E C))
      : Type 0 where
    pub handler : c'.io_handler ≡ some c.next_address
    pub next : c'.next_address ≡ suc c.next_address
    pub fresh : (c'.heap c.next_address).io_common.io_started ≡ false
    pub entity : c'.entity_common ≡ c.entity_common
    pub same_endpoints : c'.endpoints ≡ c.endpoints
    pub told : c'.calls ≡ c.calls ++ new ++ callback (io_state_chg fs c.next_address 1 true) ∷ []

  -- One failure and the wait after it.
  retry :
      (c : TcpConnector B E C) (fe : C) (err : ErrorCode) (endp : E)
      → c.entity_common.started ≡ true
      → c.entity_common.error_cb ≡ some fe
      → c.shutting_down ≡ false
      → is_error err ≡ true
      → handle_wait (handle_connect c err none endp) no_error
        ≡ record c { calls = c.calls ++ retries fe c.reconn_time c.endpoints (err ∷ []) }
  unfolding handle_connect call_error_cb
  retry c fe err endp on ce up bad = rw (bad, on, ce, up) (simp append_assoc)

module _ {E C : Type 0} (B H F : Type 0) ⦃b : SharedBuffer B⦄ ⦃h : MsgHdlr H E⦄
    ⦃f : MsgFrame F⦄ where
  -- Where the connector is started, not shutting down, and has both callbacks: however many connects
  -- fail, each failure is told, and is followed by a wait of `m_reconn_time` and one more connect
  -- to the same endpoints. The first connect that succeeds creates an io handler, whose io is not
  -- started, which becomes that of the connector, and is announced.
  pub run-tries-Connects :
      (errs : List ErrorCode) (c : TcpConnector B E C) (fs fe : C) (endp : E)
      → c.entity_common.started ≡ true
      → c.entity_common.io_state_chg_cb ≡ some fs
      → c.entity_common.error_cb ≡ some fe
      → c.shutting_down ≡ false
      → all_errors errs ≡ true
      → Connects c
          (run {H = H} {F = F} c (tries endp errs))
          fs
          (retries fe c.reconn_time c.endpoints errs)
  unfolding run step handle_connect call_io_state_chg_cb new_tcp_io
  run-tries-Connects [] c fs fe endp on cs ce up bad = record {
    handler = refl;
    next = refl;
    fresh = rw (==_refl c.next_address) refl;
    entity = refl;
    same_endpoints = refl;
    told = rw (cs, append-nil) refl;
  }
  run-tries-Connects (err ∷ errs) c fs fe endp on cs ce up bad =
      let (first, rest) = and-both (is_error err) (all_errors errs) bad in
      let c1 = record c { calls = c.calls ++ retries fe c.reconn_time c.endpoints (err ∷ []) } in
      let v = run-tries-Connects errs c1 fs fe endp on cs ce up rest in
      subst
        (λ z.
          Connects c (run {H = H} {F = F} z (tries endp errs)) fs
            (retries fe c.reconn_time c.endpoints (err ∷ errs)))
        (sym (retry c fe err endp on ce up first))
        (record {
          handler = v.handler;
          next = v.next;
          fresh = v.fresh;
          entity = v.entity;
          same_endpoints = v.same_endpoints;
          told =
              v.told
              ∙ ap (λ l. l ++ callback (io_state_chg fs c.next_address 1 true) ∷ [])
                  (append_assoc c.calls _ _);
        })

  -- A connector that was made of a host and a port, started, whose resolve gives at least one
  -- endpoint: it resolves the host and the port, connects to the endpoints of the resolve, tries again
  -- after each failure, and announces the first connection.
  pub run_starts-connects :
      (port host : List ℕ) (time : ℕ) (first : E) (others : List E) (errs : List ErrorCode)
      (fs fe : C) (endp : E)
      → all_errors errs ≡ true
      → let res = first ∷ others in
        let c =
          run {B = B} {H = H} {F = F}
            (new_resolving_connector endp port host time)
            (starts fs fe ∷ resolved no_error res ∷ tries endp errs) in
        (c.io_handler ≡ some 0)
        × (is_started c ≡ true)
        × (c.endpoints ≡ res)
        × (c.calls
            ≡ make_endpoints host port ∷ async_connect res ∷ retries fe time res errs
              ++ callback (io_state_chg fs 0 1 true) ∷ [])
  unfolding run step start handle_resolve is_started new_resolving_connector new_tcp_connector
      NetEntityCommon.start NetEntityCommon.is_started NetEntityCommon.new_net_entity_common
  run_starts-connects port host time first others errs fs fe endp bad =
      let c0 =
        handle_resolve (start (new_resolving_connector endp port host time) fs fe).1 no_error
          (first ∷ others) in
      let v = run-tries-Connects errs c0 fs fe endp refl refl refl refl bad in
      (v.handler, ap (λ e. e.started) v.entity, v.same_endpoints, v.told)
