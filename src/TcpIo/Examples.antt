-- ===== src/TcpIo/Examples.antt =====
-- Instances and tests of TCP reading. A message handler collects what it is called with, and stops
-- at a message of one byte; a header is one byte, the size of the body.
use chops.Prelude.{
  ℕ, Bool, ◌≤◌, ◌%◌, ◌≡◌, refl, true, false, not, some, List, [], ◌∷◌, ◌++◌, length, map, resize,
  ◌==◌, arith,
}
use chops.NetIpError.{ErrorCode, other, no_error}
use chops.MsgFrame.{
  MsgHdlr, NullFrame, simple_frame, make_simple_variable_len_msg_frame, null_frame,
}
use chops.TcpIo.{
  TcpIo, TrueHdlr, async_read, async_read_until, start_io_delimiter, start_io, start_io_read,
}
use chops.TcpIo.Reads.{serve}
use chops.TcpIo.Framing.{VarLenMsg, stream, frame_at}
use chops.TcpIo.Sessions.{start_io-framed, serve-empty_body, concat, start_io_read-chunks}
use chops.TcpIo.Written
use chops.TcpIo.Written.{SendCall, send_run}
use chops.TcpIo.Emptied.{new_sending, to_the_end}
use chops.TcpIo.Exchange.{start_io-exchanged}
use chops.TcpIo.ReadUntil.{find-IsFirst}
use chops.TcpIo.UntilReads.{serve_until}
use chops.TcpIo.UntilSessions.{start_io_delimiter-AreDelimited, serve_until-concat}
use chops.TcpIo.Search.{searching}
use chops.TcpIo.Bounds.{
  InBounds, after_reads, IoEvent, reads, sends, writes, io_run, start_io-InBounds,
}
use chops.OutputQueue.{SharedBuffer}

abbrev Log : Type 0
Log = List (List ℕ)

abbrev no_msgs : Log
no_msgs = []

instance abbrev collecting : MsgHdlr Log ℕ
collecting = record { call_hdlr = λ log m endp. (not (length m == 1), log ++ m ∷ []) }

instance abbrev bytes : SharedBuffer (List ℕ)
bytes = record { size = length }

abbrev first_byte : List ℕ → ℕ
first_byte [] = 0
first_byte (x ∷ xs) = x

abbrev eof : ErrorCode
eof = record { value = 2; category = other }

abbrev peer : ErrorCode × ℕ
peer = (no_error, 80)

abbrev fresh : TcpIo (List ℕ) ℕ
fresh = record {
  is_open = true;
  io_common = record {
    io_started = false;
    write_in_progress = false;
    outq = record { output_queue = []; queue_size = 0; current_num_bytes = 0 };
  };
  remote_endp = 0;
  byte_vec = [];
  read_size = 0;
  delimiter = [];
}

abbrev two_msgs : List VarLenMsg
two_msgs = record { hdr = 2 ∷ []; body = 8 ∷ 9 ∷ [] } ∷ record { hdr = 1 ∷ []; body = 7 ∷ [] } ∷ []

start_io-framed_example :
    let (started, io', calls) =
      start_io {B = List ℕ} fresh peer 1 no_msgs (make_simple_variable_len_msg_frame first_byte) in
    (started ≡ true)
    × (serve 6 eof io' (stream two_msgs ++ []) calls []
        ≡ some (((2 ∷ 8 ∷ 9 ∷ []) ∷ (1 ∷ 7 ∷ []) ∷ []), eof))
start_io-framed_example =
    start_io-framed 6 1 eof fresh peer first_byte [] two_msgs [] refl refl refl
      ((refl, refl, omega arith, omega arith), ((refl, refl, omega arith, omega arith), tt))
      (omega arith) (omega arith)

-- The same from a handler that sends its second message while it writes the first one.
abbrev idle : TcpIo (List ℕ) ℕ
idle = record fresh {
  io_common = record {
    io_started = true;
    write_in_progress = false;
    outq = record { output_queue = []; queue_size = 0; current_num_bytes = 0 };
  };
}

abbrev two_sends : List (SendCall (List ℕ))
two_sends = Written.sends (2 ∷ 8 ∷ 9 ∷ []) ∷ Written.sends (1 ∷ 7 ∷ []) ∷ Written.completes ∷ []

start_io-exchanged_example :
    let cs = to_the_end TrueHdlr NullFrame idle two_sends in
    let written = (send_run TrueHdlr NullFrame (new_sending idle) cs).written in
    let (started, io', calls) =
      start_io {B = List ℕ} fresh peer 1 no_msgs (make_simple_variable_len_msg_frame first_byte) in
    (started ≡ true)
    × (serve 6 eof io' (concat (map (λ xs. xs) written)) calls []
        ≡ some (((2 ∷ 8 ∷ 9 ∷ []) ∷ (1 ∷ 7 ∷ []) ∷ []), eof))
start_io-exchanged_example =
    start_io-exchanged TrueHdlr NullFrame (λ xs. xs) idle fresh two_sends two_msgs 6 1 eof peer
      first_byte [] (record { started = refl; idle = refl; empty = refl }) refl
      ((refl, refl, omega arith, omega arith), ((refl, refl, omega arith, omega arith), tt))
      (omega arith) refl refl refl (omega arith)

abbrev reading : TcpIo (List ℕ) ℕ
reading = record fresh { read_size = 2; byte_vec = 0 ∷ 0 ∷ [] }

serve-empty_body_example :
    serve 2 eof reading
      ((0 ∷ 0 ∷ []) ++ ((3 ∷ 1 ∷ []) ++ (5 ∷ 6 ∷ 7 ∷ [])))
      (async_read 0 2 no_msgs (frame_at false first_byte) ∷ [])
      []
    ≡ serve 0 eof
        (record reading { byte_vec = resize 2 (3 ∷ 1 ∷ []) })
        (5 ∷ 6 ∷ 7 ∷ [])
        (async_read 0 2 ((0 ∷ 0 ∷ []) ∷ (3 ∷ 1 ∷ []) ∷ []) (frame_at false first_byte) ∷ [])
        ((0 ∷ 0 ∷ []) ∷ (3 ∷ 1 ∷ []) ∷ [])
serve-empty_body_example =
    serve-empty_body 0 eof reading first_byte [] (0 ∷ 0 ∷ []) (3 ∷ 1 ∷ []) (5 ∷ 6 ∷ 7 ∷ []) refl
      refl refl refl refl refl

start_io_read-chunks_example :
    let (started, io', calls) = start_io_read {B = List ℕ} fresh peer 2 no_msgs in
    (started ≡ true)
    × (serve 4 eof io' (concat ((1 ∷ 2 ∷ []) ∷ (3 ∷ 4 ∷ []) ∷ []) ++ 5 ∷ []) calls []
        ≡ some (((1 ∷ 2 ∷ []) ∷ (3 ∷ 4 ∷ []) ∷ []), eof))
start_io_read-chunks_example =
    start_io_read-chunks 4 2 eof fresh peer [] ((1 ∷ 2 ∷ []) ∷ (3 ∷ 4 ∷ []) ∷ []) (5 ∷ []) refl refl
      refl (refl, (refl, tt)) (omega arith) (omega arith)

-- Two lines that end with the bytes 13 and 10, in chunks that cut the first delimiter.
abbrev crlf : List ℕ
crlf = 13 ∷ 10 ∷ []

abbrev line_chunks : List (List ℕ)
line_chunks = (7 ∷ 13 ∷ []) ∷ (10 ∷ 8 ∷ 9 ∷ []) ∷ (13 ∷ 10 ∷ 5 ∷ []) ∷ []

start_io_delimiter-AreDelimited_example :
    let (started, io', calls) =
      start_io_delimiter {B = List ℕ} {F = NullFrame} fresh peer crlf no_msgs in
    (started ≡ true)
    × (serve_until searching 4 eof io' line_chunks calls no_msgs
        ≡ some (((7 ∷ 13 ∷ 10 ∷ []) ∷ (8 ∷ 9 ∷ 13 ∷ 10 ∷ []) ∷ []), eof))
start_io_delimiter-AreDelimited_example =
    start_io_delimiter-AreDelimited NullFrame searching 4 eof fresh peer crlf no_msgs line_chunks
      ((7 ∷ 13 ∷ 10 ∷ []) ∷ (8 ∷ 9 ∷ 13 ∷ 10 ∷ []) ∷ []) (5 ∷ []) refl refl refl
      (
        find-IsFirst searching crlf (7 ∷ 13 ∷ 10 ∷ []) 3 refl,
        (find-IsFirst searching crlf (8 ∷ 9 ∷ 13 ∷ 10 ∷ []) 4 refl, tt),
      )
      (λ k. searching.find-none crlf (5 ∷ []) k refl) refl (omega arith)

serve_until-concat_example :
    let io = record fresh { delimiter = crlf } in
    let calls = async_read_until no_msgs ∷ [] in
    (x : Log × ErrorCode) × (serve_until {F = NullFrame} searching 10 eof io line_chunks calls
        no_msgs
      ≡ some x)
    × (serve_until searching 10 eof io (concat line_chunks ∷ []) calls no_msgs ≡ some x)
serve_until-concat_example =
    serve_until-concat NullFrame searching 10 eof (record fresh { delimiter = crlf }) line_chunks
      (concat line_chunks ∷ []) no_msgs refl (omega arith) refl (omega arith)

-- A header of one byte, a buffer that is sent, and a body of two bytes.
abbrev some_events : List (IoEvent (List ℕ))
some_events =
    reads (2 ∷ []) no_error ∷ sends (7 ∷ []) ∷ reads (8 ∷ 9 ∷ []) no_error ∷ writes no_error ∷ []

-- The size of a body in one byte, whatever the numbers are.
abbrev first_byte_mod : List ℕ → ℕ
first_byte_mod bytes = first_byte bytes % 256

first_byte_mod-AsksAtMost :
    (rest : List (List ℕ)) (done : Bool) (bytes : List ℕ)
    → (simple_frame.call_frame
        (after_reads (record { hdr_processed = done; func = first_byte_mod }) rest)
        bytes).0
      ≤ 256
first_byte_mod-AsksAtMost [] true bytes = omega arith
first_byte_mod-AsksAtMost [] false bytes = omega arith
first_byte_mod-AsksAtMost (x ∷ rest) true bytes = first_byte_mod-AsksAtMost rest false bytes
first_byte_mod-AsksAtMost (x ∷ rest) false bytes = first_byte_mod-AsksAtMost rest true bytes

start_io-InBounds_example :
    let (started, io', calls) =
      start_io {B = List ℕ} fresh peer 1 no_msgs
        (make_simple_variable_len_msg_frame first_byte_mod) in
    let s = io_run (io', calls) some_events in InBounds s.0.byte_vec s.1
start_io-InBounds_example =
    start_io-InBounds fresh peer 1 256 no_msgs (make_simple_variable_len_msg_frame first_byte_mod)
      some_events (λ rest bytes. first_byte_mod-AsksAtMost rest false bytes) (omega arith)
