-- ===== src/VarLenMsg/Examples.antt =====
-- Instances and tests of the example's message handler, with endpoints as numbers.
use chops.Prelude.{ℕ, ◌+◌, ◌*◌, ◌≡◌, refl, true, false, some, List, [], ◌∷◌, length, map, arith}
use chops.NetIpError.{ErrorCode, other, no_error}
use chops.OutputQueue.{SharedBuffer}
use chops.MsgFrame.{NullFrame, simple_frame, make_simple_variable_len_msg_frame}
use chops.TcpIo.{TcpIo, TrueHdlr, start_io}
use chops.TcpIo.Reads.{serve}
use chops.TcpIo.Framing.{VarLenMsg}
use chops.TcpIo.Sessions.{concat}
use chops.TcpIo.Written.{SendCall, sends, completes, send_run}
use chops.TcpIo.Emptied.{new_sending, to_the_end}
use chops.VarLenMsg.{call_var_len_hdlr, decode_variable_len_msg_hdr, VarLenHdlr, BigToNative}
use chops.VarLenMsg.Exchanged.{var_len_hdlr, handled, start_io-handled}

abbrev replying : VarLenHdlr ℕ
replying = record { reply = true; cnt = 5; sent = [] }

instance abbrev big_endian : BigToNative
big_endian = record { big_to_native = λ a b. a * 256 + b; big_to_native-value = λ a b. refl }

-- The header of a message of 775 bytes.
abbrev high : ℕ
high = 3

abbrev low : ℕ
low = 7

decoded : decode_variable_len_msg_hdr (high ∷ low ∷ []) ≡ 775
decoded = refl

-- A message of three bytes is counted and sent back.
replied :
    call_var_len_hdlr replying (1 ∷ 2 ∷ 3 ∷ []) 90
    ≡ (true, record { reply = true; cnt = 6; sent = (1 ∷ 2 ∷ 3 ∷ [], 90) ∷ [] })
unfolding call_var_len_hdlr
replied = refl

instance abbrev bytes : SharedBuffer (List ℕ)
bytes = record { size = length }

abbrev closed : TcpIo (List ℕ) ℕ
closed = record {
  is_open = true;
  io_common = record {
    io_started = false;
    write_in_progress = false;
    outq = record { output_queue = []; queue_size = 0; current_num_bytes = 0 };
  };
  remote_endp = 0;
  byte_vec = [];
  read_size = 0;
  delimiter = [];
}

abbrev idle : TcpIo (List ℕ) ℕ
idle = record closed { io_common = record closed.io_common { io_started = true } }

abbrev eof : ErrorCode
eof = record { value = 2; category = other }

-- Two messages; the second one is sent while the first one is written.
abbrev two_sends : List (SendCall (List ℕ))
two_sends = sends (0 ∷ 2 ∷ 8 ∷ 9 ∷ []) ∷ sends (0 ∷ 1 ∷ 7 ∷ []) ∷ completes ∷ []

abbrev two_msgs : List VarLenMsg
two_msgs =
    record { hdr = 0 ∷ 2 ∷ []; body = 8 ∷ 9 ∷ [] } ∷ record { hdr = 0 ∷ 1 ∷ []; body = 7 ∷ [] } ∷ []

start_io-handled_example :
    let cs = to_the_end TrueHdlr NullFrame idle two_sends in
    let written = (send_run TrueHdlr NullFrame (new_sending idle) cs).written in
    let (started, to', calls) =
      start_io {B = List ℕ} closed
        (no_error, 80)
        2
        replying
        (make_simple_variable_len_msg_frame decode_variable_len_msg_hdr) in
    (started ≡ true)
    × (serve 6 eof to' (concat (map (λ xs. xs) written)) calls replying
        ≡ some (handled replying 80 two_msgs, eof))
start_io-handled_example =
    start_io-handled TrueHdlr NullFrame (λ xs. xs) idle closed two_sends two_msgs 6 eof
      (no_error, 80) replying (omega arith) (record { started = refl; idle = refl; empty = refl })
      refl ((refl, refl, omega arith, omega arith), ((refl, refl, omega arith, omega arith), tt))
      refl refl refl (omega arith)
