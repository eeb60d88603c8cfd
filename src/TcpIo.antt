-- ===== src/TcpIo.antt =====
-- net_ip/detail/tcp_io.hpp: the io handler of one TCP connection. A method returns the new handler
-- and the calls that it makes of the socket and of its net entity, in their order: an asynchronous
-- operation is started by its call, and its completion handler is a method of its own. What `post`
-- runs later on the executor (the body of `send`) is a method too.
use chops.Prelude.{
  ℕ, add_size, Bool, true, false, not, Option, none, some, List, [], ◌∷◌, length, resize, slice,
  erase_first, ◌==◌, if◌then◌else◌,
}
use chops.NetIpError.{
  ErrorCode, make_error_code, is_error, message_handler_terminated, tcp_io_handler_stopped,
}
use chops.OutputQueue.{SharedBuffer, OutputQueueStats}
use chops.IoCommon.{IoCommon, new_io_common, start_write_setup, get_next_element}
use chops.IoCommon
use chops.MsgFrame.{MsgHdlr, MsgFrame, NullFrame, null_msg_frame}
pub mod Reads
pub mod Framing
pub mod Sessions
pub mod ReadUntil
pub mod Delimited
pub mod UntilReads
pub mod UntilSessions
pub mod Bounds
pub mod Written
pub mod Emptied
pub mod Exchange
mod Search
mod Examples

pub record TcpIo (B E : Type 0) : Type 0 where
  pub is_open : Bool  -- whether m_socket is open
  pub io_common : IoCommon B E
  pub remote_endp : E
  pub byte_vec : List ℕ
  pub read_size : ℕ
  pub delimiter : List ℕ

-- The calls of the socket and of `m_notifier_cb`. A read is given the place of its buffer in
-- `m_byte_vec` and the function objects that its completion handler holds.
pub data TcpEffect (B H F : Type 0) : Type 0 where
  async_read : (off len : ℕ) → H → F → TcpEffect B H F
  async_read_until : H → TcpEffect B H F
  async_write : B → TcpEffect B H F
  shutdown_socket close_socket : TcpEffect B H F
  notify : ErrorCode → TcpEffect B H F

module _ {B E : Type 0} where
  -- The constructor: `endp` stands for the endpoint that is constructed by default.
  unfoldable pub new_tcp_io : E → TcpIo B E
  unfolding new_io_common
  new_tcp_io endp = record {
    is_open = true;
    io_common = new_io_common;
    remote_endp = endp;
    byte_vec = [];
    read_size = 0;
    delimiter = [];
  }

  unfoldable pub is_io_started : TcpIo B E → Bool
  is_io_started io = io.io_common.io_started

  unfoldable pub get_output_queue_stats : TcpIo B E → OutputQueueStats
  unfolding IoCommon.get_output_queue_stats
  get_output_queue_stats io = IoCommon.get_output_queue_stats io.io_common

module _ {B E H F : Type 0} where
  -- `remote` is what `remote_endpoint(ec)` of the socket gives: the code and the endpoint.
  unfoldable pub start_io_setup :
      TcpIo B E → ErrorCode × E → Bool × TcpIo B E × List (TcpEffect B H F)
  unfolding IoCommon.set_io_started
  start_io_setup io remote =
      let (started, c) = IoCommon.set_io_started io.io_common in
      if not started
      then (false, record io { io_common = c }, [])
      else if is_error remote.0
      then (false, record io { io_common = c; remote_endp = remote.1 }, notify remote.0 ∷ [])
      else (true, record io { io_common = c; remote_endp = remote.1 }, [])

  -- `start_io(header_size, msg_handler, msg_frame)`.
  unfoldable pub start_io :
      TcpIo B E → ErrorCode × E → ℕ → H → F → Bool × TcpIo B E × List (TcpEffect B H F)
  unfolding start_io_setup
  start_io io remote header_size mh mf =
      let (started, io', calls) = start_io_setup io remote in
      if not started then (false, io', calls) else (
        true,
        record io' { read_size = header_size; byte_vec = resize header_size io'.byte_vec },
        async_read 0 header_size mh mf ∷ [],
      )

  -- `start_io(delimiter, msg_handler)`.
  unfoldable pub start_io_delimiter :
      TcpIo B E → ErrorCode × E → List ℕ → H → Bool × TcpIo B E × List (TcpEffect B H F)
  unfolding start_io_setup
  start_io_delimiter io remote delimiter mh =
      let (started, io', calls) = start_io_setup io remote in
      if not started
      then (false, io', calls)
      else (true, record io' { delimiter = delimiter }, async_read_until mh ∷ [])

  unfoldable pub stop_io : TcpIo B E → Bool × TcpIo B E × List (TcpEffect B H F)
  unfolding is_io_started
  stop_io io =
      if is_io_started io
      then (true, io, notify (make_error_code tcp_io_handler_stopped) ∷ [])
      else (false, io, [])

  unfoldable pub close : TcpIo B E → TcpIo B E × List (TcpEffect B H F)
  unfolding IoCommon.stop
  close io =
      let (stopped, c) = IoCommon.stop io.io_common in
      if not stopped
      then (record io { io_common = c }, [])
      else (record io { io_common = c; is_open = false }, shutdown_socket ∷ close_socket ∷ [])

module _ {B E H : Type 0} where
  -- `start_io(read_size, msg_handler)`.
  unfoldable pub start_io_read :
      TcpIo B E → ErrorCode × E → ℕ → H → Bool × TcpIo B E × List (TcpEffect B H NullFrame)
  unfolding start_io
  start_io_read io remote read_size mh = start_io io remote read_size mh null_msg_frame

-- The message handler of `start_io()`, a lambda that returns true.
pub data TrueHdlr : Type 0 where
  true_hdlr : TrueHdlr

instance abbrev pub true_hdlr_calls : {E : Type 0} → MsgHdlr TrueHdlr E
true_hdlr_calls = record { call_hdlr = λ h bytes endp. (true, h) }

module _ {B E : Type 0} where
  -- `start_io()`, for a handler that is only sent through.
  unfoldable pub start_io_send_only :
      TcpIo B E → ErrorCode × E → Bool × TcpIo B E × List (TcpEffect B TrueHdlr NullFrame)
  unfolding start_io
  start_io_send_only io remote = start_io io remote 1 true_hdlr null_msg_frame

module _ {B E H F : Type 0} ⦃b : SharedBuffer B⦄ where
  -- What `send` posts to the executor. An endpoint that is given to `send` is not used.
  unfoldable pub send : TcpIo B E → B → TcpIo B E × List (TcpEffect B H F)
  send io buf =
      let (start, c) = start_write_setup io.io_common buf none in
      (record io { io_common = c }, if start then async_write buf ∷ [] else [])

  -- The write of an element of the output queue, if there is one.
  abbrev pub write_next : Option (B × Option E) → List (TcpEffect B H F)
  write_next none = []
  write_next (some elem) = async_write elem.0 ∷ []

  unfoldable pub handle_write : TcpIo B E → ErrorCode → TcpIo B E × List (TcpEffect B H F)
  handle_write io err =
      if is_error err
      then (io, [])
      else let (elem, c) = get_next_element io.io_common in
        (record io { io_common = c }, write_next elem)

module _ {B E H F : Type 0} ⦃h : MsgHdlr H E⦄ where
  -- `handle_read_until`: the first `num_bytes` bytes of `m_byte_vec` are the message. The message
  -- handler is returned too, as its call left it.
  unfoldable pub handle_read_until :
      TcpIo B E → ErrorCode → ℕ → H → TcpIo B E × List (TcpEffect B H F) × H
  handle_read_until io err num_bytes mh =
      if is_error err
      then (io, notify err ∷ [], mh)
      else let (more, mh') = h.call_hdlr mh (slice 0 num_bytes io.byte_vec) io.remote_endp in
        if not more then (io, notify (make_error_code message_handler_terminated) ∷ [], mh') else (
          record io { byte_vec = erase_first num_bytes io.byte_vec },
          async_read_until mh' ∷ [],
          mh',
        )

module _ {B E H F : Type 0} ⦃h : MsgHdlr H E⦄ ⦃f : MsgFrame F⦄ where
  -- `handle_read`: `off` and `len` are the place of `mbuf` in `m_byte_vec`.
  unfoldable pub handle_read :
      TcpIo B E → (off len : ℕ) → ErrorCode → H → F → TcpIo B E × List (TcpEffect B H F) × H
  handle_read io off len err mh mf =
      if is_error err
      then (io, notify err ∷ [], mh)
      else let (next_read_size, mf') = f.call_frame mf (slice off len io.byte_vec) in
        if next_read_size == 0
        then (let (more, mh') = h.call_hdlr mh io.byte_vec io.remote_endp in
            if not more
            then (io, notify (make_error_code message_handler_terminated) ∷ [], mh')
            else (
              record io { byte_vec = resize io.read_size io.byte_vec },
              async_read 0 io.read_size mh' mf' ∷ [],
              mh',
            ))
        else (
          record io {
            byte_vec = resize (add_size (length io.byte_vec) next_read_size) io.byte_vec;
          },
          async_read (length io.byte_vec) next_read_size mh mf' ∷ [],
          mh,
        )
