-- ===== src/IoInterfaceDelivery/ConnectorFutures.antt =====
-- A TCP connector of net_ip/detail/tcp_connector.hpp that is started by
-- `make_tcp_io_interface_future_pair` of net_ip/component/io_interface_delivery.hpp.
use chops.Prelude.{
  ℕ, ◌≡◌, refl, ap, ap₂, subst, sym, ◌∙◌, ◌<◌, arith, Bool, true, false, Option, none, some, List,
  [], ◌∷◌, ◌++◌, ==_refl,
}
use chops.NetIpError.{ErrorCode, no_error, is_error}
use chops.OutputQueue.{SharedBuffer}
use chops.MsgFrame.{MsgHdlr, MsgFrame}
use chops.NetEntityCommon
use chops.NetEntityCommon.{Callback, io_state_chg, error_call, bad_function_call}
use chops.WeakPtr.{Heap, returns}
use chops.BasicIoInterface.{BasicIoInterface}
use chops.TcpConnector.{
  TcpConnector, ConnectorCall, callback, make_endpoints, async_connect, new_resolving_connector,
  new_tcp_connector, start, handle_resolve,
}
use chops.TcpIo.{async_read}
use chops.TcpIo
use chops.TcpConnector.Starting.{starts_io-KeepsEntity, start_io-reads}
use chops.TcpConnector.Stopping.{stop_calls}
use chops.TcpConnector.Lost.{end_calls, run_reads-stop_calls}
use chops.TcpConnector.Retrying.{all_errors, tries, retries, run-tries-Connects}
use chops.TcpConnector.Histories.{Event, resolved, starts_io, reads, step, run, run-append}
use chops.IoInterfaceDelivery.{
  IoStateChgData, FuturePairFunc, call_future_pair_func, new_future_pair_func,
}
use chops.IoInterfaceDelivery.Delivering.{run_pair}
use chops.IoInterfaceDelivery.Starting.{
  IoInterfaceFuturePair, FutureState, waiting, ready, state_of, make_tcp_io_interface_future_pair,
}

-- The io interface of a handler.
abbrev pub interface_of : ℕ → BasicIoInterface
interface_of p = record { ioh_wptr = some p }

abbrev pub change : ℕ → ℕ → Bool → IoStateChgData
change p num starting = record { io_intf = interface_of p; num_handlers = num; starting = starting }

-- The io state changes that a connector tells its callback, among its calls.
abbrev pub changes_of : {E C : Type 0} → List (ConnectorCall E C) → List IoStateChgData
changes_of [] = []
changes_of (callback (io_state_chg f p num starting) ∷ cs) = change p num starting ∷ changes_of cs
changes_of (_ ∷ cs) = changes_of cs

-- The two futures after these calls of the function object; none where one of them throws.
abbrev pub states_of :
    IoInterfaceFuturePair → Option FuturePairFunc → Option (FutureState × FutureState)
states_of futs none = none
states_of futs (some f) =
    some (state_of futs.start_fut f.start_prom, state_of futs.stop_fut f.stop_prom)

abbrev pub delivered :
    {E C : Type 0}
    → IoInterfaceFuturePair
    → List (ConnectorCall E C)
    → Option (FutureState × FutureState)
delivered futs calls = states_of futs (run_pair new_future_pair_func (changes_of calls))

-- Two futures whose promises exist.
abbrev pub two_futures : IoInterfaceFuturePair
two_futures = record {
  start_fut = record { has_promise = true };
  stop_fut = record { has_promise = true };
}

module _ {E C : Type 0} where
  changes_of-append :
      (xs ys : List (ConnectorCall E C)) → changes_of (xs ++ ys) ≡ changes_of xs ++ changes_of ys
  changes_of-append [] ys = refl
  changes_of-append (callback (io_state_chg f p num starting) ∷ xs) ys =
      ap (λ l. change p num starting ∷ l) (changes_of-append xs ys)
  changes_of-append (_ ∷ xs) ys = changes_of-append xs ys

  changes_of-retries :
      (fe : C) (time : ℕ) (endps : List E) (errs : List ErrorCode)
      → changes_of (retries fe time endps errs) ≡ []
  changes_of-retries fe time endps [] = refl
  changes_of-retries fe time endps (err ∷ errs) = changes_of-retries fe time endps errs

  -- The calls of a new connector until it is connected.
  connecting_calls :
      List ℕ → List ℕ → ℕ → List E → List ErrorCode → C → C → List (ConnectorCall E C)
  connecting_calls port host time res errs fs fe =
      make_endpoints host port ∷ async_connect res ∷ retries fe time res errs
      ++ callback (io_state_chg fs 0 1 true) ∷ []

  changes_of-connecting_calls :
      (port host : List ℕ) (time : ℕ) (res : List E) (errs : List ErrorCode) (fs fe : C)
      → changes_of (connecting_calls port host time res errs fs fe) ≡ change 0 1 true ∷ []
  unfolding connecting_calls
  changes_of-connecting_calls port host time res errs fs fe =
      changes_of-append (retries fe time res errs) (callback (io_state_chg fs 0 1 true) ∷ [])
      ∙ ap (λ l. l ++ change 0 1 true ∷ []) (changes_of-retries fe time res errs)

module _ {B E C : Type 0} where
  -- The connector of a heap that `make_tcp_io_interface_future_pair` has started.
  make_tcp_io_interface_future_pair-start :
      (hp : Heap (TcpConnector B E C)) (p : ℕ) (port host : List ℕ) (time : ℕ) (fs fe : C)
      (endp : E)
      → hp p ≡ some (new_resolving_connector endp port host time)
      → let (made, hp') =
          make_tcp_io_interface_future_pair hp (record { eh_wptr = some p }) fs fe in
        (made ≡ returns two_futures)
        × (hp' p ≡ some (start (new_resolving_connector endp port host time) fs fe).1)
  unfolding make_tcp_io_interface_future_pair new_resolving_connector new_tcp_connector
      NetEntityCommon.new_net_entity_common
  make_tcp_io_interface_future_pair-start hp p port host time fs fe endp e =
      rw (e, ==_refl p) (refl, refl)

module _ {E C : Type 0} (B H F : Type 0) ⦃b : SharedBuffer B⦄ ⦃h : MsgHdlr H E⦄
    ⦃f : MsgFrame F⦄ where
  -- A connector that was made of a host and a port and is given to `make_tcp_io_interface_future_pair`
  -- is started, and the two futures wait. When the resolve gives at least one endpoint, and a connect
  -- succeeds after any number that fail, the start future has the interface of the first io handler;
  -- when then the io of this handler is started, which starts a read, and the read fails, the stop
  -- future has the same interface.
  pub make_tcp_io_interface_future_pair-delivered :
      (hp : Heap (TcpConnector B E C)) (p : ℕ) (port host : List ℕ) (time : ℕ) (first : E)
      (others : List E) (errs : List ErrorCode) (fs fe : C) (endp : E) (n : ℕ)
      (remote : ErrorCode × E) (err : ErrorCode) (mh : H) (mf : F)
      → hp p ≡ some (new_resolving_connector endp port host time)
      → all_errors errs ≡ true
      → is_error remote.0 ≡ false
      → is_error err ≡ true
      → let (made, hp') =
          make_tcp_io_interface_future_pair hp (record { eh_wptr = some p }) fs fe in
        let connecting : List (Event B E C H F) =
          resolved no_error (first ∷ others) ∷ tries endp errs in
        (made ≡ returns two_futures)
        × (c : TcpConnector B E C) × (hp' p ≡ some c)
        × (delivered two_futures c.calls ≡ some (waiting, waiting))
        × (delivered two_futures (run c connecting).calls ≡ some (ready (interface_of 0), waiting))
        × ((TcpIo.start_io ((run c connecting).heap 0) remote n mh mf).2
            ≡ async_read 0 n mh mf ∷ [])
        × (delivered two_futures
              (run c (connecting ++ starts_io 0 remote n mh mf ∷ reads 0 0 n err mh mf ∷ [])).calls
            ≡ some (ready (interface_of 0), ready (interface_of 0)))
  unfolding run step start handle_resolve new_resolving_connector new_tcp_connector connecting_calls
      NetEntityCommon.start NetEntityCommon.new_net_entity_common run_pair call_future_pair_func
  make_tcp_io_interface_future_pair-delivered hp p port host time first others errs fs fe endp n
        remote err mh mf e bad good broken =
      let c1 = (start (new_resolving_connector endp port host time) fs fe).1 in
      let c0 = handle_resolve c1 no_error (first ∷ others) in
      let v = run-tries-Connects B H F errs c0 fs fe endp refl refl refl refl bad in
      let c = run {H = H} {F = F} c0 (tries endp errs) in
      let told : changes_of c.calls ≡ change 0 1 true ∷ [] =
        ap changes_of v.told
        ∙ changes_of-connecting_calls port host time (first ∷ others) errs fs fe in
      let there : 0 < c.next_address = subst (λ k. 0 < k) (sym v.next) (omega arith) in
      let k = starts_io-KeepsEntity c 0 remote n mh mf there good in
      let d = step c (starts_io 0 remote n mh mf) in
      let ends =
        run_reads-stop_calls d fs fe 0 0 n err mh mf (ap (λ x. x.started) (k.entity ∙ v.entity))
          (ap (λ x. x.io_state_chg_cb) (k.entity ∙ v.entity))
          (ap (λ x. x.error_cb) (k.entity ∙ v.entity)) (k.handler ∙ v.handler)
          (subst (λ x. 0 < x) (sym k.next) there) broken in
      let (made, at) = make_tcp_io_interface_future_pair-start hp p port host time fs fe endp e in
      let at_end = stop_calls (first ∷ others) (some 0) fe in
      let both : changes_of (c.calls ++ end_calls fs fe 0 err ++ at_end)
          ≡ change 0 1 true ∷ change 0 0 false ∷ [] =
        changes_of-append (c.calls ++ end_calls fs fe 0 err) at_end
        ∙ ap (λ l. l ++ [])
            (changes_of-append c.calls (end_calls fs fe 0 err)
              ∙ ap (λ l. l ++ change 0 0 false ∷ []) told) in
      (
        made,
        c1,
        at,
        refl,
        ap (λ l. states_of two_futures (run_pair new_future_pair_func l)) told,
        start_io-reads (c.heap 0) remote n mh mf v.fresh good,
        ap (λ x. delivered two_futures x.calls) (run-append c0 (tries endp errs) _)
            ∙ ap (delivered two_futures) (
                ends.3
                ∙ ap₂ (λ cs l. cs ++ end_calls fs fe 0 err ++ stop_calls l (some 0) fe) k.told
                    (k.same_endpoints ∙ v.same_endpoints))
            ∙ ap (λ l. states_of two_futures (run_pair new_future_pair_func l)) both,
      )
