-- ===== src/TcpIo/Reads.antt =====
-- A connection of net_ip/detail/tcp_io.hpp that is read to its end: the bytes that the peer sends
-- are a list, and `async_read` of the networking library completes when its buffer is full or, at
-- the end of the bytes, with the error `eof`.
use chops.Prelude.{refl, false, resize, fill_whole, slice-append}
use chops.Prelude.{
  ℕ, zero, suc, ◌<◌, ◌≡◌, true, Option, none, some, List, [], ◌∷◌, ◌++◌, length, arith, ap,
  take-append, drop-append, length-append, le→leb, lt→leb, take, drop, fill, leb, if◌then◌else◌,
}
use chops.NetIpError.{ErrorCode, is_error, no_error, make_error_code, message_handler_terminated}
use chops.MsgFrame.{MsgHdlr, MsgFrame}
use chops.TcpIo.{TcpIo, TcpEffect, async_read, notify, handle_read}

module _ {H E : Type 0} ⦃h : MsgHdlr H E⦄ where
  -- The specification: the messages are handed to the handler one by one, until it returns false
  -- or there are no more. The result is the handler and the code that the net entity is given.
  abbrev pub deliver : ErrorCode → E → H → List (List ℕ) → H × ErrorCode
  deliver eof endp mh [] = (mh, eof)
  deliver eof endp mh (m ∷ ms) =
      let (more, mh') = h.call_hdlr mh m endp in
      let rest = deliver eof endp mh' ms in
      if more then rest else (mh', make_error_code message_handler_terminated)

module _ {B E H F : Type 0} ⦃h : MsgHdlr H E⦄ ⦃f : MsgFrame F⦄ where
  -- The completion of one `async_read`, with the bytes that are left.
  unfoldable pub complete_read :
      ErrorCode
      → TcpIo B E
      → List ℕ
      → (off len : ℕ) → H
      → F
      → (TcpIo B E × List (TcpEffect B H F) × H) × List ℕ
  complete_read eof io bytes off len mh mf =
      if leb len (length bytes)
      then (
        handle_read (record io { byte_vec = fill off (take len bytes) io.byte_vec }) off len
            no_error mh mf,
        drop len bytes,
      )
      else (handle_read io off len eof mh mf, [])

  -- Enough bytes are there.
  pub complete_read-append :
      (eof : ErrorCode) (io : TcpIo B E) (bytes rest : List ℕ) (off : ℕ) (mh : H) (mf : F)
      → complete_read eof io (bytes ++ rest) off (length bytes) mh mf ≡ (
        handle_read
            (record io { byte_vec = fill off bytes io.byte_vec })
            off
            (length bytes)
            no_error
            mh
            mf,
        rest,
      )
  unfolding complete_read
  complete_read-append eof io bytes rest off mh mf = rw (
    le→leb (length bytes) (length (bytes ++ rest)) (omega (arith, length-append bytes rest)),
    take-append bytes rest,
    drop-append bytes rest,
  )

  -- Too few bytes are left: the handler notifies the net entity of the end.
  pub complete_read-short :
      (eof : ErrorCode) (io : TcpIo B E) (bytes : List ℕ) (off len : ℕ) (mh : H) (mf : F)
      → is_error eof ≡ true
      → length bytes < len
      → complete_read eof io bytes off len mh mf ≡ ((io, notify eof ∷ [], mh), [])
  unfolding complete_read handle_read
  complete_read-short eof io bytes off len mh mf e short = rw (lt→leb (length bytes) len short, e)

  -- A read from the beginning of the vector that the frame takes for a whole message.
  pub complete_read-message :
      (eof : ErrorCode) (io : TcpIo B E) (m rest : List ℕ) (mh : H) (mf : F) {mf' : F}
      → length io.byte_vec ≡ length m
      → f.call_frame mf m ≡ (0, mf')
      → (h.call_hdlr mh m io.remote_endp).0 ≡ true
      → let mh' = (h.call_hdlr mh m io.remote_endp).1 in
        complete_read eof io (m ++ rest) 0 (length m) mh mf ≡ (
          (
            record io { byte_vec = resize io.read_size m },
            async_read 0 io.read_size mh' mf' ∷ [],
            mh',
          ),
          rest,
        )
  unfolding handle_read
  complete_read-message eof io m rest mh mf lv ends more = rw (
    complete_read-append eof io m rest 0 mh mf,
    fill_whole m io.byte_vec lv,
    slice-append [] m 0 (length m) refl refl,
    ends,
    more,
  )

  -- The same, of a message that the handler refuses.
  pub complete_read-message_refused :
      (eof : ErrorCode) (io : TcpIo B E) (m rest : List ℕ) (mh : H) (mf : F) {mf' : F}
      → length io.byte_vec ≡ length m
      → f.call_frame mf m ≡ (0, mf')
      → (h.call_hdlr mh m io.remote_endp).0 ≡ false
      → complete_read eof io (m ++ rest) 0 (length m) mh mf ≡ (
        (
          record io { byte_vec = m },
          notify (make_error_code message_handler_terminated) ∷ [],
          (h.call_hdlr mh m io.remote_endp).1,
        ),
        rest,
      )
  unfolding handle_read
  complete_read-message_refused eof io m rest mh mf lv ends no_more = rw (
    complete_read-append eof io m rest 0 mh mf,
    fill_whole m io.byte_vec lv,
    slice-append [] m 0 (length m) refl refl,
    ends,
    no_more,
  )

  -- The reads until the net entity is notified; `none` where the fuel runs out, or where a call is
  -- neither a read nor a notification.
  unfoldable pub serve :
      ℕ → ErrorCode → TcpIo B E → List ℕ → List (TcpEffect B H F) → H → Option (H × ErrorCode)
  serve zero eof io bytes calls mh = none
  serve (suc n) eof io bytes (async_read off len mh mf ∷ []) _ =
      let ((io', calls, mh'), rest) = complete_read eof io bytes off len mh mf in
      serve n eof io' rest calls mh'
  serve (suc n) eof io bytes (notify err ∷ []) mh = some (mh, err)
  serve (suc n) eof io bytes _ mh = none

  pub serve-async_read :
      (n : ℕ) (eof : ErrorCode) (io : TcpIo B E) (bytes : List ℕ) (off len : ℕ) (mh mh0 : H)
      (mf : F) {r : (TcpIo B E × List (TcpEffect B H F) × H) × List ℕ}
      → complete_read eof io bytes off len mh mf ≡ r
      → serve (suc n) eof io bytes (async_read off len mh mf ∷ []) mh0
        ≡ serve n eof r.0.0 r.1 r.0.1 r.0.2
  unfolding serve
  serve-async_read n eof io bytes off len mh mh0 mf e =
      ap
        (λ (r : (TcpIo B E × List (TcpEffect B H F) × H) × List ℕ).
          serve n eof r.0.0 r.1 r.0.1 r.0.2)
        e

  pub serve-notify :
      (n : ℕ) (eof : ErrorCode) (io : TcpIo B E) (bytes : List ℕ) (err : ErrorCode) (mh : H)
      (calls : List (TcpEffect B H F))
      → 0 < n
      → calls ≡ notify err ∷ []
      → serve n eof io bytes calls mh ≡ some (mh, err)
  unfolding serve
  serve-notify zero eof io bytes err mh calls h e = elim h [ ]
  serve-notify (suc n) eof io bytes err mh calls h e = rw e
