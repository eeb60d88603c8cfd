-- ===== src/UdpEntityIo/Restart.antt =====
-- A UDP entity of net_ip/detail/udp_entity_io.hpp that is stopped while a write is outstanding, and
-- started again.
use chops.Prelude.{
  ℕ, and-both, not, ◌&&◌, slice, false≢true, ◌≡◌, refl, ◌∙◌, Bool, true, false, Option, none, some,
  List, [], ◌∷◌, append-nil, Bool-cases, inl, inr,
}
use chops.NetIpError.{ErrorCode, is_error, make_error_code, message_handler_terminated}
use chops.OutputQueue.{SharedBuffer}
use chops.IoCommon.{start_write_setup, get_next_element}
use chops.MsgFrame.{MsgHdlr}
use chops.UdpEntityIo.{
  Endpoint, UdpEntityIo, err_notify, start, start_io, start_io_endp, start_io_send_only,
  start_io_send_only_endp, stop_io, stop, send, handle_read, handle_write,
}
use chops.UdpEntityIo.Histories.{
  Event, starts, starts_io, starts_io_endp, starts_io_send_only, starts_io_send_only_endp, stops_io,
  stops, sends, reads, writes, step, run, datagrams, datagrams-append,
}

-- No write completes.
-- Whether an event is the completion of a write, and whether no event of a history is one.
abbrev pub is_writes : {B E C H : Type 0} → Event B E C H → Bool
is_writes (writes _) = true
is_writes _ = false

abbrev pub no_writes : {B E C H : Type 0} → List (Event B E C H) → Bool
no_writes [] = true
no_writes (e ∷ es) = not (is_writes e) && no_writes es

module _ {B E C H : Type 0} where
  -- Nothing was written, and the flag of an outstanding write did not change.
  record IsQuiet (u u' : UdpEntityIo B E C H) : Type 0 where
    same_flag : u'.io_common.write_in_progress ≡ u.io_common.write_in_progress
    same_datagrams : datagrams u'.calls ≡ datagrams u.calls

  stop_io_at-IsQuiet :
      (io_started : Bool) (u : UdpEntityIo B E C H)
      → let v = record u { io_common = record u.io_common { io_started = io_started } } in
        IsQuiet v (stop_io v).1
  unfolding stop_io
  stop_io_at-IsQuiet false u = record { same_flag = refl; same_datagrams = refl }
  stop_io_at-IsQuiet true u = record {
    same_flag = refl;
    same_datagrams = simp (datagrams-append, append-nil);
  }

  then_IsQuiet : {u v w : UdpEntityIo B E C H} → IsQuiet u v → IsQuiet v w → IsQuiet u w
  then_IsQuiet p q = record {
    same_flag = q.same_flag ∙ p.same_flag;
    same_datagrams = q.same_datagrams ∙ p.same_datagrams;
  }

  stop_io-IsQuiet : (u : UdpEntityIo B E C H) → IsQuiet u (stop_io u).1
  stop_io-IsQuiet u = stop_io_at-IsQuiet u.io_common.io_started u

  stop_at-IsQuiet :
      (started io_started : Bool) (u : UdpEntityIo B E C H)
      → let v = record u {
        entity_common = record u.entity_common { started = started };
        io_common = record u.io_common { io_started = io_started };
      } in
        IsQuiet v (stop v).1
  unfolding stop
  stop_at-IsQuiet false io_started u = record { same_flag = refl; same_datagrams = refl }
  stop_at-IsQuiet true false u = record {
    same_flag = refl;
    same_datagrams = simp (datagrams-append, append-nil);
  }
  stop_at-IsQuiet true true u = record {
    same_flag = refl;
    same_datagrams = simp (datagrams-append, append-nil);
  }

  stop-IsQuiet : (u : UdpEntityIo B E C H) → IsQuiet u (stop u).1
  stop-IsQuiet u = stop_at-IsQuiet u.entity_common.started u.io_common.io_started u

  -- An error is told, and the entity is stopped.
  fail-IsQuiet : (u : UdpEntityIo B E C H) (err : ErrorCode) → IsQuiet u (stop (err_notify u err)).1
  fail-IsQuiet u err =
      then_IsQuiet
        (record { same_flag = refl; same_datagrams = simp (datagrams-append, append-nil) })
        (stop-IsQuiet (err_notify u err))

  start_at-IsQuiet :
      ⦃ep : Endpoint E⦄ (started : Bool) (u : UdpEntityIo B E C H) (cs ce : C)
      (opened : Option ErrorCode)
      → let v = record u { entity_common = record u.entity_common { started = started } } in
        IsQuiet v (start v cs ce opened).1
  unfolding start
  start_at-IsQuiet true u cs ce opened = record { same_flag = refl; same_datagrams = refl }
  start_at-IsQuiet false u cs ce none = record {
    same_flag = refl;
    same_datagrams = simp (datagrams-append, append-nil);
  }
  start_at-IsQuiet false u cs ce (some code) =
      let v = record u {
        entity_common = record { started = true; io_state_chg_cb = some cs; error_cb = some ce };
      } in
      then_IsQuiet {v = v} (record { same_flag = refl; same_datagrams = refl })
        (fail-IsQuiet v code)

  start_io_at-IsQuiet :
      (started : Bool) (u : UdpEntityIo B E C H) (n : ℕ) (mh : H) (endp : E)
      → let v = record u { io_common = record u.io_common { io_started = started } } in
        IsQuiet v (start_io v n mh).1 × IsQuiet v (start_io_endp v endp n mh).1
  unfolding start_io start_io_endp
  start_io_at-IsQuiet true u n mh endp = (
    record { same_flag = refl; same_datagrams = refl },
    record { same_flag = refl; same_datagrams = refl },
  )
  start_io_at-IsQuiet false u n mh endp = (
    record { same_flag = refl; same_datagrams = simp (datagrams-append, append-nil) },
    record { same_flag = refl; same_datagrams = simp (datagrams-append, append-nil) },
  )

  start_io_send_only_at-IsQuiet :
      (started : Bool) (u : UdpEntityIo B E C H) (endp : E)
      → let v = record u { io_common = record u.io_common { io_started = started } } in
        IsQuiet v (start_io_send_only v).1 × IsQuiet v (start_io_send_only_endp v endp).1
  unfolding start_io_send_only start_io_send_only_endp
  start_io_send_only_at-IsQuiet true u endp = (
    record { same_flag = refl; same_datagrams = refl },
    record { same_flag = refl; same_datagrams = refl },
  )
  start_io_send_only_at-IsQuiet false u endp = (
    record { same_flag = refl; same_datagrams = refl },
    record { same_flag = refl; same_datagrams = refl },
  )

  handle_read-IsQuiet :
      ⦃h : MsgHdlr H E⦄ (u : UdpEntityIo B E C H) (err : ErrorCode) (n : ℕ) (mh : H)
      → IsQuiet u (handle_read u err n mh).0
  unfolding handle_read
  handle_read-IsQuiet ⦃h⦄ u err n mh = elim (Bool-cases (is_error err)) [
    | inl e ↦ rw e (fail-IsQuiet u err)
    | inr e ↦ elim (Bool-cases (h.call_hdlr mh (slice 0 n u.byte_vec) u.sender_endp).0) [
      | inl more ↦
          rw (e, more)
            (record { same_flag = refl; same_datagrams = simp (datagrams-append, append-nil) })
      | inr no_more ↦ rw (e, no_more) (fail-IsQuiet u (make_error_code message_handler_terminated))
    ]
  ]

module _ {B E C H : Type 0} ⦃b : SharedBuffer B⦄ where
  -- A send while a write is outstanding.
  send_at-IsQuiet :
      (started busy : Bool) (u : UdpEntityIo B E C H) (buf : B) (endp : Option E)
      → busy ≡ true
      → let v = record u {
        io_common = record u.io_common { io_started = started; write_in_progress = busy };
      } in
        IsQuiet v (send v buf endp)
  unfolding send start_write_setup
  send_at-IsQuiet false busy u buf endp on = record { same_flag = refl; same_datagrams = refl }
  send_at-IsQuiet true true u buf endp on = record { same_flag = refl; same_datagrams = refl }
  send_at-IsQuiet true false u buf endp on = absurd (false≢true on)

  -- A write completes after the io was stopped.
  handle_write-IsQuiet :
      (u : UdpEntityIo B E C H) (err : ErrorCode)
      → u.io_common.io_started ≡ false
      → IsQuiet u (handle_write u err)
  unfolding handle_write get_next_element
  handle_write-IsQuiet u err off = elim (Bool-cases (is_error err)) [
    | inl e ↦ rw e (fail-IsQuiet u err)
    | inr e ↦ rw (e, off) (record { same_flag = refl; same_datagrams = refl })
  ]

  stop_at-off :
      (started io_started : Bool) (u : UdpEntityIo B E C H)
      → started ≡ true
      → let v = record u {
        entity_common = record u.entity_common { started = started };
        io_common = record u.io_common { io_started = io_started };
      } in
        (stop v).1.io_common.io_started ≡ false
  unfolding stop
  stop_at-off false io_started u on = absurd (false≢true on)
  stop_at-off true false u on = refl
  stop_at-off true true u on = refl

  stop-off :
      (u : UdpEntityIo B E C H)
      → u.entity_common.started ≡ true
      → (stop u).1.io_common.io_started ≡ false
  stop-off u = stop_at-off u.entity_common.started u.io_common.io_started u

module _ {B E C H : Type 0} ⦃ep : Endpoint E⦄ ⦃b : SharedBuffer B⦄ ⦃h : MsgHdlr H E⦄ where
  step-IsQuiet :
      (e : Event B E C H) (u : UdpEntityIo B E C H)
      → not (is_writes e) ≡ true
      → u.io_common.write_in_progress ≡ true
      → IsQuiet u (step u e)
  unfolding step
  step-IsQuiet (writes _) u other busy = absurd (false≢true other)
  step-IsQuiet (starts cs ce opened) u other busy =
      start_at-IsQuiet u.entity_common.started u cs ce opened
  step-IsQuiet (starts_io n mh) u other busy =
      (start_io_at-IsQuiet u.io_common.io_started u n mh u.local_endp).0
  step-IsQuiet (starts_io_endp endp n mh) u other busy =
      (start_io_at-IsQuiet u.io_common.io_started u n mh endp).1
  step-IsQuiet starts_io_send_only u other busy =
      (start_io_send_only_at-IsQuiet u.io_common.io_started u u.local_endp).0
  step-IsQuiet (starts_io_send_only_endp endp) u other busy =
      (start_io_send_only_at-IsQuiet u.io_common.io_started u endp).1
  step-IsQuiet stops_io u other busy = stop_io-IsQuiet u
  step-IsQuiet stops u other busy = stop-IsQuiet u
  step-IsQuiet (sends buf endp) u other busy =
      send_at-IsQuiet u.io_common.io_started u.io_common.write_in_progress u buf endp busy
  step-IsQuiet (reads err n mh) u other busy = handle_read-IsQuiet u err n mh

  run-quiet :
      (es : List (Event B E C H)) (u : UdpEntityIo B E C H)
      → no_writes es ≡ true
      → u.io_common.write_in_progress ≡ true
      → datagrams (run u es).calls ≡ datagrams u.calls
  unfolding run
  run-quiet [] u others busy = refl
  run-quiet (e ∷ es) u others busy =
      let (other, rest) = and-both (not (is_writes e)) (no_writes es) others in
      let q = step-IsQuiet e u other busy in
      run-quiet es (step u e) rest (q.same_flag ∙ busy) ∙ q.same_datagrams

  -- A started UDP entity is stopped while a write is outstanding, and then that write completes, with
  -- an error or without one. Whatever is called and whatever else completes afterwards, `start`,
  -- `start_io` and `send` included: no datagram is given to the socket any more.
  pub run_stopped-quiet :
      (es : List (Event B E C H)) (u : UdpEntityIo B E C H) (err : ErrorCode)
      → u.entity_common.started ≡ true
      → u.io_common.write_in_progress ≡ true
      → no_writes es ≡ true
      → datagrams (run (handle_write (stop u).1 err) es).calls ≡ datagrams u.calls
  run_stopped-quiet es u err on busy others =
      let s = stop-IsQuiet u in
      let w = handle_write-IsQuiet (stop u).1 err (stop-off u on) in
      run-quiet es (handle_write (stop u).1 err) others (w.same_flag ∙ (s.same_flag ∙ busy))
      ∙ (w.same_datagrams ∙ s.same_datagrams)
