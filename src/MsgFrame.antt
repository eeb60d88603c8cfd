-- ===== src/MsgFrame.antt =====
-- net_ip/component/simple_variable_len_msg_frame.hpp, and the function objects that `start_io` takes:
-- a message handler and a message frame are values with a state of their own, which a call changes.
use chops.Prelude.{ℕ, Bool, true, false, List, if◌then◌else◌}

-- What `start_io` asks of a message handler, which the application supplies: a call with the bytes
-- of a message and the remote endpoint says whether reading goes on.
pub record MsgHdlr (H E : Type 0) : Type 0 where
  pub call_hdlr : H → List ℕ → E → Bool × H

-- And of a message frame: a call with the bytes just read returns the size of the next read, 0 at
-- the end of a message.
pub record MsgFrame (F : Type 0) : Type 0 where
  pub call_frame : F → List ℕ → ℕ × F

-- The closure that `make_simple_variable_len_msg_frame` returns, with its two captures.
pub record SimpleFrame : Type 0 where
  pub hdr_processed : Bool
  pub func : List ℕ → ℕ

abbrev pub make_simple_variable_len_msg_frame : (List ℕ → ℕ) → SimpleFrame
make_simple_variable_len_msg_frame func = record { hdr_processed = false; func = func }

abbrev pub call_simple_frame : SimpleFrame → List ℕ → ℕ × SimpleFrame
call_simple_frame f buf =
    if f.hdr_processed
    then (0, record f { hdr_processed = false })
    else (f.func buf, record f { hdr_processed = true })

instance abbrev pub simple_frame : MsgFrame SimpleFrame
simple_frame = record { call_frame = call_simple_frame }

-- `null_msg_frame` of net_ip/detail/tcp_io.hpp: every read is a whole message.
pub data NullFrame : Type 0 where
  null_msg_frame : NullFrame

abbrev pub call_null_frame : NullFrame → List ℕ → ℕ × NullFrame
call_null_frame f buf = (0, f)

instance abbrev pub null_frame : MsgFrame NullFrame
null_frame = record { call_frame = call_null_frame }
