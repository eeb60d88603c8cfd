-- ===== src/TcpIo/Sessions.antt =====
-- Whole sessions of net_ip/detail/tcp_io.hpp, from `start_io` on: with variable length messages, and
-- with reads of one size.
use chops.Prelude.{
  ℕ, zero, suc, ◌+◌, ◌*◌, ◌≤◌, ◌<◌, ◌≡◌, refl, sym, ap, ◌∙◌, inl, inr, Bool, true, false, some,
  List, [], ◌∷◌, ◌++◌, length, map, resize, append_assoc, arith, length-resize, Bool-cases,
}
use chops.NetIpError.{ErrorCode, is_error}
use chops.MsgFrame.{
  MsgHdlr, SimpleFrame, simple_frame, make_simple_variable_len_msg_frame, NullFrame, null_msg_frame,
  null_frame,
}
use chops.TcpIo.{TcpIo, TcpEffect, async_read, start_io, start_io_read}
use chops.TcpIo.Reads.{
  deliver, complete_read-short, serve, serve-async_read, serve-notify, complete_read-message,
  complete_read-message_refused,
}
use chops.TcpIo.Framing.{VarLenMsg, whole, stream, AreFramed, frame_at, serve-framed}

module _ {B E H : Type 0} ⦃h : MsgHdlr H E⦄ where
  -- A handler that is not started and whose socket has a remote endpoint starts. When the peer then
  -- sends framed messages (each a header of `n` bytes that tells the size of a body which is not
  -- empty, and with it of a size that fits in a `std::size_t`) and fewer than `n` bytes more, the
  -- message handler is called once for each message, in order, until it returns false; the net
  -- entity is notified once, of that or of the end.
  pub start_io-framed :
      (fuel n : ℕ) (eof : ErrorCode) (io : TcpIo B E) (remote : ErrorCode × E) (func : List ℕ → ℕ)
      (mh : H) (ms : List VarLenMsg) (rest : List ℕ)
      → io.io_common.io_started ≡ false
      → is_error remote.0 ≡ false
      → is_error eof ≡ true
      → AreFramed n func ms
      → length rest < n
      → 2 * length ms + 2 ≤ fuel
      → let (started, io', calls) =
          start_io io remote n mh (make_simple_variable_len_msg_frame func) in
        (started ≡ true)
        × (serve fuel eof io' (stream ms ++ rest) calls mh
            ≡ some (deliver eof remote.1 mh (map whole ms)))
  unfolding start_io
  start_io-framed fuel n eof io remote func mh ms rest s r ee fr short enough =
      rw (s, r)
        (
          refl,
          serve-framed fuel n eof _ func mh ms rest ee fr short (length-resize n io.byte_vec) refl
              enough,
        )

  -- A message whose body is empty: the header is handed to the handler as a message, and so is the
  -- next header, with no body, whatever size it tells. Then the body that follows is read as a
  -- header.
  pub serve-empty_body :
      (fuel : ℕ) (eof : ErrorCode) (io : TcpIo B E) (func : List ℕ → ℕ) (mh : H)
      (hdr hdr2 rest : List ℕ)
      → length io.byte_vec ≡ io.read_size
      → length hdr ≡ io.read_size
      → length hdr2 ≡ io.read_size
      → func hdr ≡ 0
      → (h.call_hdlr mh hdr io.remote_endp).0 ≡ true
      → let mh1 = (h.call_hdlr mh hdr io.remote_endp).1 in
        (h.call_hdlr mh1 hdr2 io.remote_endp).0 ≡ true
        → let mh2 = (h.call_hdlr mh1 hdr2 io.remote_endp).1 in
          serve
            (suc (suc fuel))
            eof
            io
            (hdr ++ (hdr2 ++ rest))
            (async_read 0 io.read_size mh (frame_at false func) ∷ [])
            mh
          ≡ serve fuel eof
              (record io { byte_vec = resize io.read_size hdr2 })
              rest
              (async_read 0 io.read_size mh2 (frame_at false func) ∷ [])
              mh2
  serve-empty_body fuel eof io func mh hdr hdr2 rest lv l1 l2 size more more1 =
      let mh1 = (h.call_hdlr mh hdr io.remote_endp).1 in
      let io1 = record io { byte_vec = resize io.read_size hdr } in
      let at : Bool → ℕ → H → List (TcpEffect B H SimpleFrame) =
        λ done k mh0. async_read 0 k mh0 (frame_at done func) ∷ [] in
      ap (λ k. serve (suc (suc fuel)) eof io (hdr ++ (hdr2 ++ rest)) (at false k mh) mh) (sym l1)
      ∙ serve-async_read (suc fuel) eof io (hdr ++ (hdr2 ++ rest)) 0 (length hdr) mh mh _ (
          complete_read-message eof io hdr (hdr2 ++ rest) mh (frame_at false func) (lv ∙ sym l1)
            (rw size) more)
      ∙ ap (λ k. serve (suc fuel) eof io1 (hdr2 ++ rest) (at true k mh1) mh1) (sym l2)
      ∙ serve-async_read fuel eof io1 (hdr2 ++ rest) 0 (length hdr2) mh1 mh1 _ (
          complete_read-message eof io1 hdr2 rest mh1 (frame_at true func)
            (length-resize io.read_size hdr ∙ sym l2) refl more1)

-- Messages of one size.
abbrev pub AreOfSize : ℕ → List (List ℕ) → Type 0
AreOfSize n [] = Unit {0}
AreOfSize n (m ∷ ms) = (length m ≡ n) × AreOfSize n ms

abbrev pub concat : List (List ℕ) → List ℕ
concat [] = []
concat (m ∷ ms) = m ++ concat ms

module _ {B E H : Type 0} ⦃h : MsgHdlr H E⦄ where
  serve-chunks :
      (fuel n : ℕ) (eof : ErrorCode) (io : TcpIo B E) (mh : H) (ms : List (List ℕ)) (rest : List ℕ)
      → is_error eof ≡ true
      → AreOfSize n ms
      → length rest < n
      → length io.byte_vec ≡ n
      → io.read_size ≡ n
      → length ms + 2 ≤ fuel
      → let calls : List (TcpEffect B H NullFrame) = async_read 0 n mh null_msg_frame ∷ [] in
        serve fuel eof io (concat ms ++ rest) calls mh ≡ some (deliver eof io.remote_endp mh ms)
  serve-chunks (suc (suc fuel)) n eof io mh [] rest ee sz short lv rs enough =
      serve-async_read (suc fuel) eof io rest 0 n mh mh _
        (complete_read-short eof io rest 0 n mh null_msg_frame ee short)
      ∙ serve-notify (suc fuel) eof io [] eof mh _ (omega arith) refl
  serve-chunks (suc (suc fuel)) n eof io mh (m ∷ ms) rest ee sz short lv rs enough =
      let lv' = lv ∙ sym sz.0 in
      let tail = concat ms ++ rest in
      let at : ℕ → H → List (TcpEffect B H NullFrame) =
        λ k mh0. async_read 0 k mh0 null_msg_frame ∷ [] in
      let mh' = (h.call_hdlr mh m io.remote_endp).1 in
      let next = record io { byte_vec = resize io.read_size m } in
      rw append_assoc (
        ap (λ k. serve (suc (suc fuel)) eof io (m ++ tail) (at k mh) mh) (sym sz.0)
        ∙ elim (Bool-cases (h.call_hdlr mh m io.remote_endp).0) [
          | inl more ↦
              serve-async_read (suc fuel) eof io (m ++ tail) 0 (length m) mh mh _
                (complete_read-message eof io m tail mh null_msg_frame lv' refl more)
              ∙ ap (λ k. serve (suc fuel) eof next tail (at k mh') mh') rs
              ∙ serve-chunks (suc fuel) n eof next mh' ms rest ee sz.1 short
                  (length-resize io.read_size m ∙ rs) rs (omega arith)
              ∙ rw more
          | inr no_more ↦
              serve-async_read (suc fuel) eof io (m ++ tail) 0 (length m) mh mh _
                (complete_read-message_refused eof io m tail mh null_msg_frame lv' refl no_more)
              ∙ serve-notify (suc fuel) eof _ tail _ _ _ (omega arith) refl
              ∙ rw no_more
        ])
  serve-chunks (suc zero) n eof io mh ms rest ee sz short lv rs enough = absurd (omega arith)
  serve-chunks zero n eof io mh ms rest ee sz short lv rs enough = absurd (omega arith)

  -- The same for `start_io` with a read size and no frame: each `n` bytes are one message.
  pub start_io_read-chunks :
      (fuel n : ℕ) (eof : ErrorCode) (io : TcpIo B E) (remote : ErrorCode × E) (mh : H)
      (ms : List (List ℕ)) (rest : List ℕ)
      → io.io_common.io_started ≡ false
      → is_error remote.0 ≡ false
      → is_error eof ≡ true
      → AreOfSize n ms
      → length rest < n
      → length ms + 2 ≤ fuel
      → let (started, io', calls) = start_io_read io remote n mh in
        (started ≡ true)
        × (serve fuel eof io' (concat ms ++ rest) calls mh ≡ some (deliver eof remote.1 mh ms))
  unfolding start_io_read
  start_io_read-chunks fuel n eof io remote mh ms rest s r ee sz short enough =
      rw (s, r)
        (
          refl,
          serve-chunks fuel n eof _ mh ms rest ee sz short (length-resize n io.byte_vec) refl
              enough,
        )
