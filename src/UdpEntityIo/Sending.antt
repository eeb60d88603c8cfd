-- ===== src/UdpEntityIo/Sending.antt =====
-- The datagrams of a UDP entity of net_ip/detail/udp_entity_io.hpp whose io is started.
use chops.Prelude.{
  false≢true, ◌≡◌, refl, sym, ap, ◌∙◌, Bool, true, false, Option, List, [], ◌∷◌, ◌++◌, map,
  append_assoc, append-nil,
}
use chops.NetIpError.{no_error}
use chops.OutputQueue.{SharedBuffer, add_element, pop_front}
use chops.OutputQueue
use chops.IoCommon.{start_write_setup, get_next_element}
use chops.UdpEntityIo.{UdpEntityIo, dest, send, handle_write}
use chops.UdpEntityIo.Histories.{datagrams, datagrams-append}

-- A buffer is sent, with or without a destination, or the write of a datagram completes.
pub data SendCall (B E : Type 0) : Type 0 where
  sends : B → Option E → SendCall B E
  completes : SendCall B E

-- An element of the output queue as a datagram.
abbrev pub to_datagram : {B E : Type 0} → E → B × Option E → B × E
to_datagram default elem = (elem.0, dest default elem.1)

-- The datagrams that are asked for.
abbrev pub asked : {B E : Type 0} → E → List (SendCall B E) → List (B × E)
asked default [] = []
asked default (sends buf endp ∷ cs) = (buf, dest default endp) ∷ asked default cs
asked default (completes ∷ cs) = asked default cs

map-snoc :
    {X Y : Type 0} (f : X → Y) (xs : List X) (x : X) → map f (xs ++ x ∷ []) ≡ map f xs ++ f x ∷ []
map-snoc f [] x = refl
map-snoc f (y ∷ xs) x = ap (λ l. f y ∷ l) (map-snoc f xs x)

module _ {B E C H : Type 0} ⦃b : SharedBuffer B⦄ where
  unfoldable pub run_sends : UdpEntityIo B E C H → List (SendCall B E) → UdpEntityIo B E C H
  run_sends u [] = u
  run_sends u (sends buf endp ∷ cs) = run_sends (send u buf endp) cs
  run_sends u (completes ∷ cs) = run_sends (handle_write u no_error) cs

  -- The datagrams that were given to the socket, and then those that wait.
  abbrev pub all_datagrams : UdpEntityIo B E C H → List (B × E)
  all_datagrams u =
      datagrams u.calls ++ map (to_datagram u.default_dest_endp) u.io_common.outq.output_queue

  record IsSending (u : UdpEntityIo B E C H) : Type 0 where
    started : u.io_common.io_started ≡ true
    idle_queue : u.io_common.write_in_progress ≡ false → u.io_common.outq.output_queue ≡ []

  record Sends (u u' : UdpEntityIo B E C H) (new : List (B × E)) : Type 0 where
    sending : IsSending u'
    default : u'.default_dest_endp ≡ u.default_dest_endp
    datagrams_in_order : all_datagrams u' ≡ all_datagrams u ++ new

  send_at-Sends :
      (started busy : Bool) (u : UdpEntityIo B E C H) (buf : B) (endp : Option E)
      → let v = record u {
        io_common = record u.io_common { io_started = started; write_in_progress = busy };
      } in
        IsSending v → Sends v (send v buf endp) ((buf, dest u.default_dest_endp endp) ∷ [])
  unfolding send start_write_setup add_element
  send_at-Sends false busy u buf endp v = absurd (false≢true v.started)
  send_at-Sends true false u buf endp v = record {
    sending = record { started = refl; idle_queue = λ e. v.idle_queue refl };
    default = refl;
    datagrams_in_order = rw (v.idle_queue refl) (simp (datagrams-append, append-nil));
  }
  send_at-Sends true true u buf endp v = record {
    sending = record { started = refl; idle_queue = λ e. absurd (false≢true (sym e)) };
    default = refl;
    datagrams_in_order = simp (map-snoc, append_assoc);
  }

  handle_write_at-Sends :
      (started : Bool) (q : List (B × Option E)) (u : UdpEntityIo B E C H)
      → let v = record u {
        io_common = record u.io_common {
          io_started = started;
          outq = record u.io_common.outq { output_queue = q };
        };
      } in
        IsSending v → Sends v (handle_write v no_error) []
  unfolding handle_write get_next_element OutputQueue.get_next_element pop_front
  handle_write_at-Sends false q u v = absurd (false≢true v.started)
  handle_write_at-Sends true [] u v = record {
    sending = record { started = refl; idle_queue = λ e. refl };
    default = refl;
    datagrams_in_order = sym (append-nil _);
  }
  handle_write_at-Sends true (x ∷ q) u v = record {
    sending = record { started = refl; idle_queue = λ e. absurd (false≢true (sym e)) };
    default = refl;
    datagrams_in_order = simp (datagrams-append, append_assoc, append-nil);
  }

  send-Sends :
      (u : UdpEntityIo B E C H) (buf : B) (endp : Option E)
      → IsSending u
      → Sends u (send u buf endp) ((buf, dest u.default_dest_endp endp) ∷ [])
  send-Sends u = send_at-Sends u.io_common.io_started u.io_common.write_in_progress u

  handle_write-Sends :
      (u : UdpEntityIo B E C H) → IsSending u → Sends u (handle_write u no_error) []
  handle_write-Sends u =
      handle_write_at-Sends u.io_common.io_started u.io_common.outq.output_queue u

  -- A UDP entity with started io, whose queue is empty unless a write is outstanding: over any
  -- history of sends and of writes that succeed, the datagrams that were given to the socket and then
  -- those that wait in the queue are those of before and then one for each send, in order. A buffer
  -- goes to the endpoint that it was sent with, and to the default destination where there was none.
  pub run_sends-in_order :
      (cs : List (SendCall B E)) (u : UdpEntityIo B E C H)
      → u.io_common.io_started ≡ true
      → (u.io_common.write_in_progress ≡ false → u.io_common.outq.output_queue ≡ [])
      → all_datagrams (run_sends u cs) ≡ all_datagrams u ++ asked u.default_dest_endp cs
  unfolding run_sends
  run_sends-in_order [] u on idle = sym (append-nil _)
  run_sends-in_order (sends buf endp ∷ cs) u on idle =
      let s = send-Sends u buf endp (record { started = on; idle_queue = idle }) in
      run_sends-in_order cs (send u buf endp) s.sending.started s.sending.idle_queue
      ∙ ap (λ d. all_datagrams (send u buf endp) ++ asked d cs) s.default
      ∙ ap (λ l. l ++ asked u.default_dest_endp cs) s.datagrams_in_order
      ∙ append_assoc (all_datagrams u) _ _
  run_sends-in_order (completes ∷ cs) u on idle =
      let s = handle_write-Sends u (record { started = on; idle_queue = idle }) in
      run_sends-in_order cs (handle_write u no_error) s.sending.started s.sending.idle_queue
      ∙ ap (λ d. all_datagrams (handle_write u no_error) ++ asked d cs) s.default
      ∙ ap (λ l. l ++ asked u.default_dest_endp cs)
          (s.datagrams_in_order ∙ append-nil (all_datagrams u))
