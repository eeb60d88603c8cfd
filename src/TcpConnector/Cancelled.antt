-- ===== src/TcpConnector/Cancelled.antt =====
-- A TCP connector of net_ip/detail/tcp_connector.hpp that is not started, whose outstanding operations
-- were cancelled.
use chops.Prelude.{
  ℕ, suc, ◌+◌, ◌≡◌, refl, sym, ◌∙◌, Bool, true, false, false≢true, ◌&&◌, and-both, List, [], ◌∷◌,
  ◌++◌, Bool-cases, inl, inr, ltb, arith,
}
use chops.NetIpError.{ErrorCode, is_error}
use chops.OutputQueue.{SharedBuffer}
use chops.MsgFrame.{MsgHdlr, MsgFrame}
use chops.NetEntityCommon
use chops.TcpIo.{
  TcpIo, TcpEffect, async_read, async_read_until, async_write, shutdown_socket, close_socket,
  notify,
}
use chops.TcpAcceptor.{update}
use chops.TcpConnector.{
  TcpConnector, ConnectorCall, callback, make_endpoints, cancel_resolve, async_connect, async_wait,
  cancel_timer, close_connector_socket, stop, tell_end, notify_me, handle_calls, handle_resolve,
  handle_connect, is_started,
}
use chops.TcpConnector.Histories.{
  Event, starts, stops, resolved, connected, waited, starts_io, stops_io, sends, reads, writes,
  on_handler, step, run,
}

-- How often a connector began to resolve, to connect or to wait.
abbrev pub attempts : {E C : Type 0} → List (ConnectorCall E C) → ℕ
attempts [] = 0
attempts (make_endpoints _ _ ∷ xs) = suc (attempts xs)
attempts (async_connect _ ∷ xs) = suc (attempts xs)
attempts (async_wait _ ∷ xs) = suc (attempts xs)
attempts (_ ∷ xs) = attempts xs

-- Whether an event is no `start`, and no resolve, connect or wait that completes without an error.
abbrev pub is_cancelled : {B E C H F : Type 0} → Event B E C H F → Bool
is_cancelled (starts _ _) = false
is_cancelled (resolved err _) = is_error err
is_cancelled (connected err _ _) = is_error err
is_cancelled (waited err) = is_error err
is_cancelled _ = true

abbrev pub all_cancelled : {B E C H F : Type 0} → List (Event B E C H F) → Bool
all_cancelled [] = true
all_cancelled (e ∷ es) = is_cancelled e && all_cancelled es

attempts-append :
    {E C : Type 0} (xs ys : List (ConnectorCall E C))
    → attempts (xs ++ ys) ≡ attempts xs + attempts ys
attempts-append [] ys = omega arith
attempts-append (make_endpoints _ _ ∷ xs) ys = omega (arith, attempts-append xs ys)
attempts-append (async_connect _ ∷ xs) ys = omega (arith, attempts-append xs ys)
attempts-append (async_wait _ ∷ xs) ys = omega (arith, attempts-append xs ys)
attempts-append (callback _ ∷ xs) ys = attempts-append xs ys
attempts-append (cancel_resolve ∷ xs) ys = attempts-append xs ys
attempts-append (cancel_timer ∷ xs) ys = attempts-append xs ys
attempts-append (close_connector_socket ∷ xs) ys = attempts-append xs ys

module _ {B E C : Type 0} where
  -- Still not started, and nothing begun.
  record Rests (c c' : TcpConnector B E C) : Type 0 where
    off : c'.entity_common.started ≡ false
    same : attempts c'.calls ≡ attempts c.calls

  Rests-self : (c : TcpConnector B E C) → c.entity_common.started ≡ false → Rests c c
  Rests-self c off = record { off = off; same = refl }

  Rests-then : {c d e : TcpConnector B E C} → Rests c d → Rests d e → Rests c e
  Rests-then p q = record { off = q.off; same = q.same ∙ p.same }

  stop_at-Rests :
      (started : Bool) (c : TcpConnector B E C)
      → started ≡ false
      → let v = record c { entity_common = record c.entity_common { started = started } } in
        Rests v (stop v).1
  unfolding stop
  stop_at-Rests false c off = record { off = refl; same = refl }
  stop_at-Rests true c off = absurd (false≢true (sym off))

  stop-Rests : (c : TcpConnector B E C) → c.entity_common.started ≡ false → Rests c (stop c).1
  stop-Rests c off = stop_at-Rests c.entity_common.started c off

  notify_me-Rests :
      (c : TcpConnector B E C) (err : ErrorCode) (p : ℕ)
      → c.entity_common.started ≡ false
      → Rests c (notify_me c err p)
  unfolding notify_me tell_end
  notify_me-Rests c err p off =
      Rests-then {d = tell_end c err p}
        (record { off = off; same = simp attempts-append (omega arith) })
        (stop-Rests (tell_end c err p) off)

  handle_calls-Rests :
      {H F : Type 0} (xs : List (TcpEffect B H F)) (c : TcpConnector B E C) (p : ℕ)
      → c.entity_common.started ≡ false
      → Rests c (handle_calls c p xs)
  unfolding handle_calls
  handle_calls-Rests [] c p off = Rests-self c off
  handle_calls-Rests (notify err ∷ xs) c p off =
      let n = notify_me-Rests c err p off in
      Rests-then n (handle_calls-Rests xs (notify_me c err p) p n.off)
  handle_calls-Rests (async_read _ _ _ _ ∷ xs) c p off = handle_calls-Rests xs c p off
  handle_calls-Rests (async_read_until _ ∷ xs) c p off = handle_calls-Rests xs c p off
  handle_calls-Rests (async_write _ ∷ xs) c p off = handle_calls-Rests xs c p off
  handle_calls-Rests (shutdown_socket ∷ xs) c p off = handle_calls-Rests xs c p off
  handle_calls-Rests (close_socket ∷ xs) c p off = handle_calls-Rests xs c p off

module _ {B E C H F : Type 0} ⦃b : SharedBuffer B⦄ ⦃h : MsgHdlr H E⦄ ⦃f : MsgFrame F⦄ where
  on_handler-Rests :
      (c : TcpConnector B E C) (p : ℕ) (r : TcpIo B E × List (TcpEffect B H F))
      → c.entity_common.started ≡ false
      → Rests c (on_handler c p r)
  on_handler-Rests c p r off = elim (Bool-cases (ltb p c.next_address)) [
    | inl there ↦ rw there (
        Rests-then {d = record c { heap = update c.heap p r.0 }} (record { off = off; same = refl })
          (handle_calls-Rests r.1 (record c { heap = update c.heap p r.0 }) p off))
    | inr none_there ↦ rw none_there (Rests-self c off)
  ]

  step-Rests :
      (e : Event B E C H F) (c : TcpConnector B E C)
      → is_cancelled e ≡ true
      → c.entity_common.started ≡ false
      → Rests c (step c e)
  unfolding step handle_resolve handle_connect is_started NetEntityCommon.is_started
      NetEntityCommon.stop
  step-Rests (starts _ _) c cancelled off = absurd (false≢true cancelled)
  step-Rests stops c cancelled off = stop-Rests c off
  step-Rests (resolved err res) c cancelled off =
      rw (cancelled, off) (record { off = refl; same = simp attempts-append (omega arith) })
  step-Rests (connected err expires endp) c cancelled off =
      rw (cancelled, off) (record { off = refl; same = simp attempts-append (omega arith) })
  step-Rests (waited err) c cancelled off = rw cancelled (Rests-self c off)
  step-Rests (starts_io p remote n mh mf) c cancelled off = on_handler-Rests c p _ off
  step-Rests (stops_io p) c cancelled off = on_handler-Rests c p _ off
  step-Rests (sends p buf) c cancelled off = on_handler-Rests c p _ off
  step-Rests (reads p o n err mh mf) c cancelled off = on_handler-Rests c p _ off
  step-Rests (writes p err) c cancelled off = on_handler-Rests c p _ off

  -- A connector that is not started, in a history without `start` in which every resolve, connect and
  -- wait that completes was cancelled or failed: it stays not started, and begins no resolve, no
  -- connect and no wait, whatever else is called and completes.
  pub run_cancelled-attempts :
      (es : List (Event B E C H F)) (c : TcpConnector B E C)
      → all_cancelled es ≡ true
      → is_started c ≡ false
      → (is_started (run c es) ≡ false) × (attempts (run c es).calls ≡ attempts c.calls)
  unfolding run is_started NetEntityCommon.is_started
  run_cancelled-attempts [] c cancelled off = (off, refl)
  run_cancelled-attempts (e ∷ es) c cancelled off =
      let (first, rest) = and-both (is_cancelled e) (all_cancelled es) cancelled in
      let r = step-Rests e c first off in
      let (still, same) = run_cancelled-attempts es (step c e) rest r.off in (still, same ∙ r.same)
