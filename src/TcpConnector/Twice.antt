-- ===== src/TcpConnector/Twice.antt =====
-- A connection of net_ip/detail/tcp_connector.hpp that is ended by `stop_io`.
use chops.Prelude.{
  ◌≡◌, refl, ap, sym, subst, ◌∙◌, true, none, some, List, [], ◌∷◌, ◌++◌, ◌<◌, ℕ, ◌||◌, not,
  if◌then◌else◌, lt→ltb, append-nil,
}
use chops.NetIpError.{ErrorCode, is_error, make_error_code, tcp_io_handler_stopped}
use chops.OutputQueue.{SharedBuffer}
use chops.MsgFrame.{MsgHdlr, MsgFrame}
use chops.TcpAcceptor.{update}
use chops.TcpIo
use chops.TcpIo.{TcpIo, TcpEffect, notify}
use chops.TcpConnector.{TcpConnector, handle_calls, points_to}
use chops.TcpConnector.Stopping.{stop_calls}
use chops.TcpConnector.Histories.{stops_io, reads, on_handler, step, run}
use chops.TcpConnector.Lost.{Ends, notify_me-Ends, reads-Ends, end_calls, or_true}

module _ {B E H F : Type 0} where
  stop_io_notify :
      (io : TcpIo B E)
      → io.io_common.io_started ≡ true
      → (TcpIo.stop_io {H = H} {F = F} io).2 ≡ notify (make_error_code tcp_io_handler_stopped) ∷ []
  unfolding TcpIo.stop_io
  stop_io_notify io live = rw live refl

module _ {B E C H F : Type 0} ⦃b : SharedBuffer B⦄ ⦃h : MsgHdlr H E⦄ ⦃f : MsgFrame F⦄ where
  -- A method of an io handler whose one call is a notification.
  on_handler-Ends :
      (c : TcpConnector B E C) (fs fe : C) (p : ℕ) (err : ErrorCode)
      (r : TcpIo B E × List (TcpEffect B H F))
      → c.entity_common.io_state_chg_cb ≡ some fs
      → c.entity_common.error_cb ≡ some fe
      → p < c.next_address
      → r.1 ≡ notify err ∷ []
      → Ends c (on_handler c p r) fs fe err p
  unfolding handle_calls
  on_handler-Ends c fs fe p err r cs ce there e =
      let v = notify_me-Ends (record c { heap = update c.heap p r.0 }) fs fe err p cs ce in
      rw (lt→ltb p c.next_address there, e)
        (record {
          assert = v.assert;
          off = v.off;
          told = v.told;
          next = v.next;
          same_io_state_chg_cb = v.same_io_state_chg_cb;
          same_error_cb = v.same_error_cb;
          io_handler = v.io_handler;
        })

  -- Where the connector is started, has both callbacks, and the handler at `p` is its own with its io
  -- started: when this io is stopped by `stop_io` while it reads, and the read then fails, the
  -- application is told twice that the connection ended, and the assertion of `notify_me` fails.
  pub run_stops_io-end_calls :
      (c : TcpConnector B E C) (fs fe : C) (p off len : ℕ) (err : ErrorCode) (mh : H) (mf : F)
      → c.entity_common.started ≡ true
      → c.entity_common.io_state_chg_cb ≡ some fs
      → c.entity_common.error_cb ≡ some fe
      → c.io_handler ≡ some p
      → p < c.next_address
      → (c.heap p).io_common.io_started ≡ true
      → is_error err ≡ true
      → let c' = run c (stops_io p ∷ reads p off len err mh mf ∷ []) in
        (c'.failed_assert ≡ true)
        × (c'.calls
            ≡ c.calls
              ++ end_calls fs fe p (make_error_code tcp_io_handler_stopped)
              ++ stop_calls c.endpoints (some p) fe
              ++ end_calls fs fe p err)
  unfolding run step
  run_stops_io-end_calls c fs fe p off len err mh mf on cs ce mine there live bad =
      let d = step {H = H} {F = F} c (stops_io p) in
      let r = TcpIo.stop_io {H = H} {F = F} (c.heap p) in
      let s =
        on_handler-Ends c fs fe p (make_error_code tcp_io_handler_stopped) (r.1, r.2) cs ce there
          (stop_io_notify (c.heap p) live) in
      let v =
        reads-Ends d fs fe p off len err mh mf (s.same_io_state_chg_cb ∙ cs) (s.same_error_cb ∙ ce)
          (subst (λ n. p < n) (sym s.next) there) bad in
      let first = end_calls fs fe p (make_error_code tcp_io_handler_stopped) in
      let gone = s.io_handler ∙ ap (λ x. if x then none else c.io_handler) on in
      let told =
        s.told
        ∙ ap (λ x. c.calls ++ first ++ (if x then stop_calls c.endpoints c.io_handler fe else []))
            on
        ∙ ap (λ w. c.calls ++ first ++ stop_calls c.endpoints w fe) mine in
      (
        v.assert ∙ ap (λ w. d.failed_assert || not (points_to w p)) gone ∙ or_true d.failed_assert,
        v.told
            ∙ ap
                (λ x.
                  d.calls
                  ++ end_calls fs fe p err
                  ++ (if x then stop_calls d.endpoints d.io_handler fe else []))
                s.off
            ∙ append-nil (d.calls ++ end_calls fs fe p err)
            ∙ ap (λ l. l ++ end_calls fs fe p err) told,
      )
