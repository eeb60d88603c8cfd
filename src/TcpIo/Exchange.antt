-- ===== src/TcpIo/Exchange.antt =====
-- Two TCP io handlers of net_ip/detail/tcp_io.hpp at the ends of a connection: one of them sends and the
-- other one reads.
use chops.Prelude.{
  ℕ, ◌+◌, ◌*◌, ◌≤◌, ◌<◌, ◌≡◌, refl, ap, sym, ◌∙◌, true, false, some, List, [], ◌∷◌, ◌++◌, map,
  append-nil, append_assoc, length,
}
use chops.NetIpError.{ErrorCode, is_error}
use chops.OutputQueue.{SharedBuffer}
use chops.MsgFrame.{MsgHdlr, simple_frame, make_simple_variable_len_msg_frame}
use chops.TcpIo.{TcpIo, start_io}
use chops.TcpIo.Reads.{deliver, serve}
use chops.TcpIo.Framing.{VarLenMsg, whole, stream, AreFramed}
use chops.TcpIo.Sessions.{start_io-framed, concat}
use chops.TcpIo.Written.{SendCall, sent, send_run}
use chops.TcpIo.Emptied.{IsIdle, new_sending, to_the_end, to_the_end-sent}

stream-concat : (ms : List VarLenMsg) → stream ms ≡ concat (map whole ms)
stream-concat [] = refl
stream-concat (m ∷ ms) =
    sym (append_assoc m.hdr m.body (stream ms)) ∙ ap (λ l. whole m ++ l) (stream-concat ms)

-- `bytes_of` are the bytes of a buffer. `H0` and `F0` are of the handler that sends.
module _ {B E H : Type 0} (H0 F0 : Type 0) ⦃b : SharedBuffer B⦄ ⦃h : MsgHdlr H E⦄
    (bytes_of : B → List ℕ) where
  -- A handler with started io, no write in progress and an empty queue sends buffers, whose bytes are
  -- framed messages (as for `start_io-framed`), in any order with the completions of its writes, all of which succeed at last;
  -- the networking library brings the bytes that were written to the other end. There a handler starts
  -- that was not started, with a frame for these messages. Then its message handler is called once for
  -- each message that was sent, in order, until it returns false, and the net entity is notified once.
  pub start_io-exchanged :
      (from to : TcpIo B E) (cs : List (SendCall B)) (ms : List VarLenMsg) (fuel n : ℕ)
      (eof : ErrorCode) (remote : ErrorCode × E) (func : List ℕ → ℕ) (mh : H)
      → IsIdle from
      → map bytes_of (sent cs) ≡ map whole ms
      → AreFramed n func ms
      → 0 < n
      → to.io_common.io_started ≡ false
      → is_error remote.0 ≡ false
      → is_error eof ≡ true
      → 2 * length ms + 2 ≤ fuel
      → let written = (send_run H0 F0 (new_sending from) (to_the_end H0 F0 from cs)).written in
        let (started, to', calls) =
          start_io to remote n mh (make_simple_variable_len_msg_frame func) in
        (started ≡ true)
        × (serve fuel eof to' (concat (map bytes_of written)) calls mh
            ≡ some (deliver eof remote.1 mh (map whole ms)))
  start_io-exchanged from to cs ms fuel n eof remote func mh v bytes fr pos s r ee enough =
      let written = (send_run H0 F0 (new_sending from) (to_the_end H0 F0 from cs)).written in
      let (started, to', calls) =
        start_io to remote n mh (make_simple_variable_len_msg_frame func) in
      let got = start_io-framed fuel n eof to remote func mh ms [] s r ee fr pos enough in
      let arrived : concat (map bytes_of written) ≡ stream ms ++ [] =
        ap (λ l. concat (map bytes_of l)) (to_the_end-sent H0 F0 from cs v)
        ∙ ap concat bytes
        ∙ sym (stream-concat ms)
        ∙ sym (append-nil (stream ms)) in
      (got.0, ap (λ l. serve fuel eof to' l calls mh) arrived ∙ got.1)
