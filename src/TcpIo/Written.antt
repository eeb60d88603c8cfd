-- ===== src/TcpIo/Written.antt =====
-- What a TCP io handler of net_ip/detail/tcp_io.hpp writes, while it is started and its writes succeed:
-- `send` and `handle_write` as a history of the write side of net_ip/detail/io_common.hpp.
use chops.Prelude.{
  ℕ, zero, suc, ◌≡◌, refl, ap, sym, subst, ◌∙◌, Bool, true, false, Option, none, some, List, [],
  ◌∷◌, ◌++◌, map, map-append, if◌then◌else◌,
}
use chops.NetIpError.{no_error}
use chops.OutputQueue.{SharedBuffer}
use chops.IoCommon.{IoCommon, start_write_setup, get_next_element}
use chops.IoCommon.Writes.{WriteCall, Writer, IsSerial, run-history, accepted}
use chops.IoCommon.Writes
use chops.TcpIo.{TcpIo, TcpEffect, async_write, write_next, send, handle_write}

-- A buffer is sent, or the outstanding write completes.
pub data SendCall (B : Type 0) : Type 0 where
  sends : B → SendCall B
  completes : SendCall B

-- The handler, the buffers whose writes were started, and how many of these writes are outstanding.
pub record Sending (B E : Type 0) : Type 0 where
  pub io : TcpIo B E
  pub written : List B
  pub outstanding : ℕ

-- The buffers of the sends.
abbrev pub sent : {B : Type 0} → List (SendCall B) → List B
sent [] = []
sent (sends buf ∷ cs) = buf ∷ sent cs
sent (completes ∷ cs) = sent cs

module _ {B E : Type 0} where
  -- The same in the history of the write side.
  abbrev pub write_call : SendCall B → WriteCall B E
  write_call (sends buf) = Writes.sends buf none
  write_call completes = Writes.completes

  abbrev pub buffer : B × Option E → B
  buffer (buf, endp) = buf

  -- The handler and its writes are those of the history.
  pub record IsWriter (s : Sending B E) (w : Writer B E) : Type 0 where
    pub common : s.io.io_common ≡ w.common
    pub written : s.written ≡ map buffer w.written
    pub outstanding : s.outstanding ≡ w.outstanding

module _ {B E : Type 0} (H F : Type 0) ⦃b : SharedBuffer B⦄ where
  -- The writes that these calls start.
  abbrev pub start_writes : Sending B E → TcpIo B E → List (TcpEffect B H F) → Sending B E
  start_writes s io [] = record s { io = io }
  start_writes s io (async_write buf ∷ xs) =
      start_writes (record s { written = s.written ++ buf ∷ []; outstanding = suc s.outstanding })
        io xs
  start_writes s io (_ ∷ xs) = start_writes s io xs

  -- Without an outstanding write there is nothing that could complete.
  abbrev pub complete : Sending B E → ℕ → Sending B E
  complete s zero = s
  complete s (suc n) =
      let r = handle_write {H = H} {F = F} s.io no_error in
      start_writes (record s { outstanding = n }) r.0 r.1

  abbrev pub send_step : Sending B E → SendCall B → Sending B E
  send_step s (sends buf) = let r = send {H = H} {F = F} s.io buf in start_writes s r.0 r.1
  send_step s completes = complete s s.outstanding

  abbrev pub send_run : Sending B E → List (SendCall B) → Sending B E
  send_run s [] = s
  send_run s (c ∷ cs) = send_run (send_step s c) cs

  -- A write is started for an element, if there is one.
  write_next-IsWriter :
      (s : Sending B E) (w : Writer B E) (io : TcpIo B E) (elem : Option (B × Option E))
      → s.written ≡ map buffer w.written
      → s.outstanding ≡ w.outstanding
      → io.io_common ≡ w.common
      → IsWriter (start_writes s io (write_next elem)) (Writes.start_write w elem)
  write_next-IsWriter s w io none ew eo ec = record { common = ec; written = ew; outstanding = eo }
  write_next-IsWriter s w io (some (buf, endp)) ew eo ec = record {
    common = ec;
    written = ap (λ l. l ++ buf ∷ []) ew ∙ sym (map-append buffer w.written ((buf, endp) ∷ []));
    outstanding = ap suc eo;
  }

  sends-IsWriter :
      (s : Sending B E) (w : Writer B E) (io : TcpIo B E) (start : Bool) (buf : B)
      → s.written ≡ map buffer w.written
      → s.outstanding ≡ w.outstanding
      → io.io_common ≡ w.common
      → IsWriter
          (start_writes s io (if start then async_write buf ∷ [] else []))
          (Writes.start_write w (if start then some (buf, none) else none))
  sends-IsWriter s w io true buf ew eo ec = write_next-IsWriter s w io (some (buf, none)) ew eo ec
  sends-IsWriter s w io false buf ew eo ec = write_next-IsWriter s w io none ew eo ec

  step_sends-IsWriter :
      (s : Sending B E) (w : Writer B E) (buf : B)
      → IsWriter s w
      → IsWriter (send_step s (sends buf)) (Writes.step w (Writes.sends buf none))
  unfolding send Writes.step
  step_sends-IsWriter s w buf v =
      let e = ap (λ c. start_write_setup c buf none) v.common in
      let r = start_write_setup s.io.io_common buf none in
      let w' = record w { common = (start_write_setup w.common buf none).1 } in
      subst
        (λ start.
          IsWriter
            (start_writes s (record s.io { io_common = r.1 })
              (if r.0 then async_write buf ∷ [] else []))
            (Writes.start_write w' (if start then some (buf, none) else none)))
        (ap (λ x. x.0) e)
        (sends-IsWriter s w' (record s.io { io_common = r.1 }) r.0 buf v.written v.outstanding
          (ap (λ x. x.1) e))

  complete-IsWriter :
      (s : Sending B E) (c : IoCommon B E) (l : List (B × Option E)) (n : ℕ)
      → IsWriter s (record { common = c; written = l; outstanding = n })
      → IsWriter
          (complete s n)
          (Writes.step (record { common = c; written = l; outstanding = n }) Writes.completes)
  unfolding handle_write Writes.step
  complete-IsWriter s c l zero v = v
  complete-IsWriter s c l (suc n) v =
      let e = ap get_next_element v.common in
      let r = get_next_element s.io.io_common in
      let s' = record s { outstanding = n } in
      let io = record s.io { io_common = r.1 } in
      let w' : Writer B E = record {
        common = (get_next_element c).1;
        written = l;
        outstanding = n;
      } in
      subst (λ elem. IsWriter (start_writes s' io (write_next r.0)) (Writes.start_write w' elem))
        (ap (λ x. x.0) e) (write_next-IsWriter s' w' io r.0 v.written refl (ap (λ x. x.1) e))

  send_step-IsWriter :
      (s : Sending B E) (w : Writer B E) (c : SendCall B)
      → IsWriter s w
      → IsWriter (send_step s c) (Writes.step w (write_call c))
  send_step-IsWriter s w (sends buf) v = step_sends-IsWriter s w buf v
  send_step-IsWriter s w completes v =
      subst (λ n. IsWriter (complete s n) (Writes.step w Writes.completes)) (sym v.outstanding)
        (complete-IsWriter s w.common w.written w.outstanding v)

  pub send_run-IsWriter :
      (cs : List (SendCall B)) (s : Sending B E) (w : Writer B E)
      → IsWriter s w
      → IsWriter (send_run s cs) (Writes.run w (map write_call cs))
  unfolding Writes.run
  send_run-IsWriter [] s w v = v
  send_run-IsWriter (c ∷ cs) s w v =
      send_run-IsWriter cs (send_step s c) (Writes.step w (write_call c))
        (send_step-IsWriter s w c v)
