-- ===== src/IoStateChange.antt =====
-- net_ip/component/io_state_change.hpp: the function objects for io state changes that start the io of
-- each new io handler. A call gives the calls of `start_io` that it makes, and the function object as it
-- leaves it: the message handler and the message frame that it passes on are moved from.
use chops.Prelude.{ℕ, ◌≡◌, Bool, true, false, List, [], ◌∷◌, if◌then◌else◌}
use chops.MsgFrame.{SimpleFrame, make_simple_variable_len_msg_frame}
use chops.BasicIoInterface.{BasicIoInterface}
pub mod Connections
mod Examples

-- What `std::move` leaves of an object; moved from again, it stays so.
pub record Movable (A : Type 0) : Type 0 where
  pub moved : A → A
  pub moved-moved : (a : A) → moved (moved a) ≡ moved a

-- The overloads of `start_io` with their arguments.
pub data StartIo (E H F : Type 0) : Type 0 where
  simple_framed : BasicIoInterface → ℕ → H → SimpleFrame → StartIo E H F
  framed : BasicIoInterface → ℕ → H → F → StartIo E H F
  delimited : BasicIoInterface → List ℕ → H → StartIo E H F
  sized : BasicIoInterface → ℕ → H → StartIo E H F
  sending : BasicIoInterface → StartIo E H F
  with_endp : BasicIoInterface → E → ℕ → H → StartIo E H F
  sending_with_endp : BasicIoInterface → E → StartIo E H F

-- The function objects with their captures, one for each function that makes one.
pub data IoStateChange (E H F : Type 0) : Type 0 where
  simple_variable_len_msg_frame :
      (hdr_size : ℕ) (hd_func : List ℕ → ℕ) (mh : H) → IoStateChange E H F
  msg_frame : (hdr_size : ℕ) (mh : H) (mf : F) → IoStateChange E H F
  delimiter_read : (delim : List ℕ) (mh : H) → IoStateChange E H F
  read : (rd_size : ℕ) (mh : H) → IoStateChange E H F
  send_only : IoStateChange E H F
  default_endp : (endp : E) (max_size : ℕ) (mh : H) → IoStateChange E H F
  send_only_default_endp : (endp : E) → IoStateChange E H F

module _ {E H F : Type 0} ⦃h : Movable H⦄ ⦃f : Movable F⦄ where
  -- The body of a function object where `starting` is true.
  unfoldable pub start_io :
      IoStateChange E H F → BasicIoInterface → StartIo E H F × IoStateChange E H F
  start_io (simple_variable_len_msg_frame hdr_size hd_func mh) io = (
    simple_framed io hdr_size mh (make_simple_variable_len_msg_frame hd_func),
    simple_variable_len_msg_frame hdr_size hd_func (h.moved mh),
  )
  start_io (msg_frame hdr_size mh mf) io =
      (framed io hdr_size mh mf, msg_frame hdr_size (h.moved mh) (f.moved mf))
  start_io (delimiter_read delim mh) io = (delimited io delim mh, delimiter_read delim (h.moved mh))
  start_io (read rd_size mh) io = (sized io rd_size mh, read rd_size (h.moved mh))
  start_io send_only io = (sending io, send_only)
  start_io (default_endp endp max_size mh) io =
      (with_endp io endp max_size mh, default_endp endp max_size (h.moved mh))
  start_io (send_only_default_endp endp) io =
      (sending_with_endp io endp, send_only_default_endp endp)

  unfoldable pub call :
      IoStateChange E H F → BasicIoInterface → ℕ → Bool → List (StartIo E H F) × IoStateChange E H F
  unfolding start_io
  call s io num starting =
      if starting then (let (c, s') = start_io s io in (c ∷ [], s')) else ([], s)
