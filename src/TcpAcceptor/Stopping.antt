-- ===== src/TcpAcceptor/Stopping.antt =====
-- `stop` of net_ip/detail/tcp_acceptor.hpp: which io handlers it stops, and what the application is
-- told.
use chops.Prelude.{
  ℕ, ◌+◌, inl, inr, Bool-cases, ◌≡◌, ◌≢◌, refl, sym, ap, ◌∙◌, Bool, true, false, none, some, List,
  [], ◌∷◌, ◌++◌, length, length-append, ◌==◌, if◌then◌else◌, EraseWhere, erase_where-without,
  without, arith, append_assoc, append-nil,
}
use chops.NetIpError.{make_error_code, tcp_acceptor_stopped, tcp_io_handler_stopped}
use chops.NetEntityCommon.{Callback, io_state_chg, error_call, call_io_state_chg_cb, call_error_cb}
use chops.TcpIo.{TcpIo}
use chops.TcpIo
use chops.TcpAcceptor.Closing.{closed, close_live, close_live-on, close_live-off}
use chops.TcpAcceptor.Addresses.{
  NotIn, Distinct, without-middle, AreApart, AreApart-nil, AreApart-snoc,
}
use chops.TcpAcceptor.{TcpAcceptor, stop_handler, stop_handlers, stop}

-- The handlers of a list that are not `live`.
abbrev pub idle : (ℕ → Bool) → List ℕ → List ℕ
idle live [] = []
idle live (p ∷ ps) = if live p then idle live ps else p ∷ idle live ps

-- What `stop` tells the application: of each live handler an error and then a state change with the
-- number of the handlers that are left. `kept` handlers that are not live stand before these.
abbrev pub stop_calls : {C : Type 0} → C → C → (ℕ → Bool) → ℕ → List ℕ → List (Callback C)
stop_calls fs fe live kept [] = []
stop_calls fs fe live kept (p ∷ ps) =
    if live p
    then error_call fe (some p) (make_error_code tcp_io_handler_stopped)
      ∷ io_state_chg fs p (kept + length ps) false
      ∷ stop_calls fs fe live kept ps
    else stop_calls fs fe live (kept + 1) ps

module _ {B E C : Type 0} ⦃er : EraseWhere ℕ ◌==◌⦄ where
  abbrev pub is_live : TcpAcceptor B E C → ℕ → Bool
  is_live a p = (a.heap p).io_common.io_started

  -- What one round of the loop does for a handler that is live.
  record StopsLive (fs fe : C) (a : TcpAcceptor B E C) (p : ℕ) (a' : TcpAcceptor B E C)
      : Type 0 where
    handlers : a'.io_handlers ≡ without ◌==◌ a.io_handlers p
    told :
        a'.calls
        ≡ (a.calls ++ error_call fe (some p) (make_error_code tcp_io_handler_stopped) ∷ [])
          ++ io_state_chg fs p (length (without ◌==◌ a.io_handlers p)) false ∷ []
    entity : a'.entity_common ≡ a.entity_common
    stopped : a'.heap p ≡ closed (a.heap p)
    others : (q : ℕ) → q ≢ p → a'.heap q ≡ a.heap q

  stop_handler-StopsLive :
      (a : TcpAcceptor B E C) (fs fe : C) (p : ℕ)
      → a.entity_common.io_state_chg_cb ≡ some fs
      → a.entity_common.error_cb ≡ some fe
      → is_live a p ≡ true
      → StopsLive fs fe a p (stop_handler a p)
  unfolding stop_handler TcpIo.close call_error_cb call_io_state_chg_cb
  stop_handler-StopsLive a fs fe p cs ce live = record {
    handlers = ground (arith, erase_where-without er a.io_handlers p);
    told = ground (arith, erase_where-without er a.io_handlers p);
    entity = ground arith;
    stopped = ground arith;
    others = λ q ne. ground arith;
  }

  -- And for one that is not: nothing.
  record KeepsIdle (a : TcpAcceptor B E C) (a' : TcpAcceptor B E C) : Type 0 where
    handlers : a'.io_handlers ≡ a.io_handlers
    told : a'.calls ≡ a.calls
    entity : a'.entity_common ≡ a.entity_common
    others : (q : ℕ) → a'.heap q ≡ a.heap q

  stop_handler-KeepsIdle :
      (a : TcpAcceptor B E C) (p : ℕ) → is_live a p ≡ false → KeepsIdle a (stop_handler a p)
  unfolding stop_handler
  stop_handler-KeepsIdle a p live = record {
    handlers = ground arith;
    told = ground arith;
    entity = ground arith;
    others = λ q. ground arith;
  }

  -- The handlers of a list are live on the heap as `live` says.
  abbrev Agree : TcpAcceptor B E C → (ℕ → Bool) → List ℕ → Type 0
  Agree a live [] = Unit {0}
  Agree a live (p ∷ ps) = (is_live a p ≡ live p) × Agree a live ps

  Agree-self : (a : TcpAcceptor B E C) (ps : List ℕ) → Agree a (is_live a) ps
  Agree-self a [] = tt
  Agree-self a (p ∷ ps) = (refl, Agree-self a ps)

  Agree-others :
      (a a' : TcpAcceptor B E C) (live : ℕ → Bool) (p : ℕ) (ps : List ℕ)
      → ((q : ℕ) → q ≢ p → is_live a' q ≡ is_live a q)
      → NotIn p ps
      → Agree a live ps
      → Agree a' live ps
  Agree-others a a' live p [] same n g = tt
  Agree-others a a' live p (q ∷ qs) same n g =
      (same q (λ e. n.0 (sym e)) ∙ g.0, Agree-others a a' live p qs same n.1 g.1)

  stop_handlers-from :
      (ps : List ℕ) (a : TcpAcceptor B E C) (fs fe : C) (live : ℕ → Bool) (kept : List ℕ)
      → a.entity_common.io_state_chg_cb ≡ some fs
      → a.entity_common.error_cb ≡ some fe
      → a.io_handlers ≡ kept ++ ps
      → Distinct ps
      → AreApart ps kept
      → Agree a live ps
      → let a' = stop_handlers a ps in
        (a'.io_handlers ≡ kept ++ idle live ps)
        × (a'.calls ≡ a.calls ++ stop_calls fs fe live (length kept) ps)
        × (a'.entity_common ≡ a.entity_common)
        × ((q : ℕ) → a'.heap q ≡ close_live live ps q (a.heap q))
  unfolding stop_handlers
  stop_handlers-from [] a fs fe live kept cs ce e d apart g =
      (e, sym (append-nil a.calls), refl, λ q. refl)
  stop_handlers-from (p ∷ ps) a fs fe live kept cs ce e d apart g = elim (Bool-cases (live p)) [
    | inl on ↦
        let r = stop_handler-StopsLive a fs fe p cs ce (g.0 ∙ on) in
        let a1 = stop_handler a p in
        let left = ap (λ l. without ◌==◌ l p) e ∙ without-middle kept p ps apart.0 d.0 in
        let handlers : a1.io_handlers ≡ kept ++ ps = r.handlers ∙ left in
        let ih =
          stop_handlers-from ps a1 fs fe live kept (ground (arith, r.entity))
            (ground (arith, r.entity)) handlers d.1 apart.1
            (Agree-others a a1 live p ps
              (λ q ne. ap (λ io. io.io_common.io_started) (r.others q ne)) d.0 g.1) in
        rw on (
          ih.0,
          ih.1 ∙ rw (r.told, left, length-append kept ps, append_assoc, append_assoc),
          ih.2 ∙ r.entity,
          λ q. ih.3 q ∙ close_live-on a.heap a1.heap live p ps q on d.0 r.stopped r.others,
        )
    | inr off ↦
        let r = stop_handler-KeepsIdle a p (g.0 ∙ off) in
        let a1 = stop_handler a p in
        let ih =
          stop_handlers-from ps a1 fs fe live (kept ++ p ∷ []) (ground (arith, r.entity))
            (ground (arith, r.entity)) (r.handlers ∙ e ∙ sym (append_assoc kept (p ∷ []) ps)) d.1
            (AreApart-snoc ps kept p apart.1 d.0)
            (Agree-others a a1 live p ps (λ q ne. ap (λ io. io.io_common.io_started) (r.others q))
              d.0 g.1) in
        rw off (
          ih.0 ∙ append_assoc kept (p ∷ []) (idle live ps),
          ih.1 ∙ rw (r.told, length-append kept (p ∷ [])),
          ih.2 ∙ r.entity,
          λ q. ih.3 q ∙ close_live-off a.heap a1.heap live p ps q off (r.others q),
        )
  ]

  -- An acceptor is started, both its callbacks are set, and its handlers are different: `stop`
  -- succeeds. It closes the handlers whose io is started, and does nothing to any other one; it
  -- forgets the former, and keeps all others, in their order. The application is told of each of
  -- the former, in the order of their acceptance: the error `tcp_io_handler_stopped` and then a
  -- state change with the number of the handlers that are left. Last comes `tcp_acceptor_stopped`.
  pub stop-stop_calls :
      (a : TcpAcceptor B E C) (fs fe : C)
      → a.entity_common.started ≡ true
      → a.entity_common.io_state_chg_cb ≡ some fs
      → a.entity_common.error_cb ≡ some fe
      → Distinct a.io_handlers
      → let (stopped, a') = stop a in
        (stopped ≡ true)
        × (a'.entity_common.started ≡ false)
        × (a'.is_open ≡ false)
        × (a'.io_handlers ≡ idle (is_live a) a.io_handlers)
        × ((q : ℕ) → a'.heap q ≡ close_live (is_live a) a.io_handlers q (a.heap q))
        × (a'.calls
            ≡ a.calls
              ++ stop_calls fs fe (is_live a) 0 a.io_handlers
              ++ error_call fe none (make_error_code tcp_acceptor_stopped) ∷ [])
  unfolding stop call_error_cb
  stop-stop_calls a fs fe s cs ce d =
      let a0 = record a { entity_common = record a.entity_common { started = false } } in
      let (handlers, told, entity, heap) =
        stop_handlers-from a.io_handlers a0 fs fe (is_live a) [] cs ce refl d
          (AreApart-nil a.io_handlers) (Agree-self a a.io_handlers) in
      simp s (refl, ap (λ c. c.started) entity, refl, handlers, heap, rw (told, entity, ce) refl)
