-- ===== src/VarLenMsg/Exchanged.antt =====
-- A connection of the example of example/var_len_msg/var_len_hdr.hpp: its decoder is in the message
-- frame, and its message handler reads what an io handler at the other end sends.
use chops.Prelude.{
  ℕ, add_size, size_mod, ◌+◌, ◌*◌, ◌≤◌, ◌<◌, ◌≡◌, refl, sym, ap, ap₂, ◌∙◌, Bool, true, false, some,
  List, [], ◌∷◌, ◌++◌, length, length-append, map, lt→ltb, if◌then◌else◌, append_assoc, append-nil,
  arith,
}
use chops.NetIpError.{ErrorCode, is_error}
use chops.OutputQueue.{SharedBuffer}
use chops.MsgFrame.{MsgHdlr, simple_frame, make_simple_variable_len_msg_frame}
use chops.TcpIo.{TcpIo, start_io}
use chops.TcpIo.Reads.{deliver, serve}
use chops.TcpIo.Framing.{VarLenMsg, whole, AreFramed}
use chops.TcpIo.Sessions.{concat}
use chops.TcpIo.Written.{SendCall, sent, send_run}
use chops.TcpIo.Emptied.{IsIdle, new_sending, to_the_end}
use chops.TcpIo.Exchange.{start_io-exchanged}
use chops.VarLenMsg.{
  BigToNative, decode_variable_len_msg_hdr, VarLenHdlr, call_var_len_hdlr, reply_to,
}

instance abbrev pub var_len_hdlr : {E : Type 0} → MsgHdlr (VarLenHdlr E) E
var_len_hdlr = record { call_hdlr = call_var_len_hdlr }

-- Messages that came from an endpoint.
abbrev pub from_endp : {E : Type 0} → E → List VarLenMsg → List (List ℕ × E)
from_endp endp [] = []
from_endp endp (m ∷ ms) = (whole m, endp) ∷ from_endp endp ms

-- The message handler after these messages, none of which asks it to end.
abbrev pub handled : {E : Type 0} → VarLenHdlr E → E → List VarLenMsg → VarLenHdlr E
handled m endp ms = record {
  reply = m.reply;
  cnt = add_size m.cnt (length ms);
  sent = if m.reply then m.sent ++ from_endp endp ms else m.sent;
}

module _ {E : Type 0} where
  call_var_len_hdlr-framed :
      (m : VarLenHdlr E) (endp : E) (x : VarLenMsg)
      → length x.hdr ≡ 2
      → 0 < length x.body
      → call_var_len_hdlr m (whole x) endp
        ≡ (true, reply_to (record m { cnt = add_size m.cnt 1 }) (whole x) endp)
  unfolding call_var_len_hdlr
  call_var_len_hdlr-framed m endp x two some_body =
      rw (lt→ltb 2 (length (whole x)) (omega (arith, length-append x.hdr x.body, two, some_body)))
        refl

  deliver-handled :
      (eof : ErrorCode) (endp : E) (func : List ℕ → ℕ) (ms : List VarLenMsg) (reply : Bool)
      (cnt : ℕ) (sent : List (List ℕ × E))
      → cnt < size_mod
      → AreFramed 2 func ms
      → let m : VarLenHdlr E = record { reply = reply; cnt = cnt; sent = sent } in
        deliver eof endp m (map whole ms) ≡ (handled m endp ms, eof)
  deliver-handled eof endp func [] true cnt sent lt fr =
      ap₂ (λ k l. (record { reply = true; cnt = k; sent = l }, eof)) (omega arith)
        (sym (append-nil sent))
  deliver-handled eof endp func [] false cnt sent lt fr =
      ap (λ k. (record { reply = false; cnt = k; sent = sent }, eof)) (omega arith)
  deliver-handled eof endp func (x ∷ ms) true cnt sent lt fr =
      let sent' = sent ++ (whole x, endp) ∷ [] in
      rw
        (call_var_len_hdlr-framed (record { reply = true; cnt = cnt; sent = sent }) endp x fr.0.0
          fr.0.2)
        (deliver-handled eof endp func ms true (add_size cnt 1) sent' (omega arith) fr.1
          ∙ ap₂ (λ k l. (record { reply = true; cnt = k; sent = l }, eof)) (omega arith)
              (append_assoc sent ((whole x, endp) ∷ []) (from_endp endp ms)))
  deliver-handled eof endp func (x ∷ ms) false cnt sent lt fr =
      rw
        (call_var_len_hdlr-framed (record { reply = false; cnt = cnt; sent = sent }) endp x fr.0.0
          fr.0.2)
        (deliver-handled eof endp func ms false (add_size cnt 1) sent (omega arith) fr.1
          ∙ ap (λ k. (record { reply = false; cnt = k; sent = sent }, eof)) (omega arith))

-- `bytes_of` are the bytes of a buffer. `H0` and `F0` are of the handler that sends.
module _ {B E : Type 0} (H0 F0 : Type 0) ⦃b : SharedBuffer B⦄ ⦃e : BigToNative⦄
    (bytes_of : B → List ℕ) where
  -- An idle handler sends messages, each a header of two bytes that the example's decoder reads as the
  -- size of the body, which is not empty; all its writes succeed at last. Then the example's handler at
  -- the other end counts all messages in its `std::size_t`, modulo 2^64, and, with `reply`, sends each
  -- back to the endpoint that it came from, in order; and the net entity there is notified of the end.
  pub start_io-handled :
      (from to : TcpIo B E) (cs : List (SendCall B)) (ms : List VarLenMsg) (fuel : ℕ)
      (eof : ErrorCode) (remote : ErrorCode × E) (m : VarLenHdlr E)
      → m.cnt < size_mod
      → IsIdle from
      → map bytes_of (sent cs) ≡ map whole ms
      → AreFramed 2 decode_variable_len_msg_hdr ms
      → to.io_common.io_started ≡ false
      → is_error remote.0 ≡ false
      → is_error eof ≡ true
      → 2 * length ms + 2 ≤ fuel
      → let written = (send_run H0 F0 (new_sending from) (to_the_end H0 F0 from cs)).written in
        let (started, to', calls) =
          start_io to remote 2 m (make_simple_variable_len_msg_frame decode_variable_len_msg_hdr) in
        (started ≡ true)
        × (serve fuel eof to' (concat (map bytes_of written)) calls m
            ≡ some (handled m remote.1 ms, eof))
  start_io-handled from to cs ms fuel eof remote m lt v bytes fr s r ee enough =
      let got =
        start_io-exchanged H0 F0 bytes_of from to cs ms fuel 2 eof remote
          decode_variable_len_msg_hdr m v bytes fr (omega arith) s r ee enough in
      (
        got.0,
        got.1
            ∙ ap some (
                deliver-handled eof remote.1 decode_variable_len_msg_hdr ms m.reply m.cnt m.sent lt
                  fr),
      )
