-- ===== src/TcpIo/Framing.antt =====
-- Variable length messages on a connection: `start_io` of net_ip/detail/tcp_io.hpp with the frame of
-- net_ip/component/simple_variable_len_msg_frame.hpp.
use chops.Prelude.{
  inl, inr, size_mod, add_size-fits, ℕ, zero, suc, ◌+◌, ◌*◌, ◌≤◌, ◌<◌, ◌≡◌, refl, sym, ap, ◌∙◌,
  Bool, true, false, some, List, [], ◌∷◌, ◌++◌, length, map, resize, append_assoc, arith, ◌==◌,
  fill_whole, fill-resize, slice-append, length-resize, Bool-cases,
}
use chops.NetIpError.{ErrorCode, is_error, make_error_code, message_handler_terminated}
use chops.MsgFrame.{MsgHdlr, SimpleFrame, simple_frame}
use chops.TcpIo.{TcpIo, TcpEffect, async_read, notify, handle_read}
use chops.TcpIo.Reads.{
  deliver, complete_read, complete_read-append, complete_read-short, serve, serve-async_read,
  serve-notify,
}

pub record VarLenMsg : Type 0 where
  pub hdr : List ℕ
  pub body : List ℕ

abbrev pub whole : VarLenMsg → List ℕ
whole m = m.hdr ++ m.body

abbrev pub stream : List VarLenMsg → List ℕ
stream [] = []
stream (m ∷ ms) = m.hdr ++ (m.body ++ stream ms)

-- Headers of `n` bytes from which `func` reads the size of a body that is not empty; the whole message has
-- a size in a `std::size_t`.
abbrev pub AreFramed : ℕ → (List ℕ → ℕ) → List VarLenMsg → Type 0
AreFramed n func [] = Unit {0}
AreFramed n func (m ∷ ms) =
    ((length m.hdr ≡ n)
      × (func m.hdr ≡ length m.body)
      × (0 < length m.body)
      × (length m.hdr + length m.body < size_mod))
    × AreFramed n func ms

abbrev pub frame_at : Bool → (List ℕ → ℕ) → SimpleFrame
frame_at done func = record { hdr_processed = done; func = func }

pub pos_ne_zero : (n : ℕ) → 0 < n → (n == 0) ≡ false
pos_ne_zero n h = ground arith

module _ {B E H : Type 0} ⦃h : MsgHdlr H E⦄ where
  -- The read of a header starts the read of its body behind it.
  complete_read-hdr :
      (eof : ErrorCode) (io : TcpIo B E) (hdr rest : List ℕ) (func : List ℕ → ℕ) (k : ℕ) (mh : H)
      → length io.byte_vec ≡ length hdr
      → func hdr ≡ k
      → 0 < k
      → length hdr + k < size_mod
      → complete_read eof io (hdr ++ rest) 0 (length hdr) mh (frame_at false func) ≡ (
        (
          record io { byte_vec = resize (length hdr + k) hdr },
          async_read (length hdr) k mh (frame_at true func) ∷ [],
          mh,
        ),
        rest,
      )
  unfolding handle_read
  complete_read-hdr eof io hdr rest func k mh lv size pos fits = rw (
    complete_read-append eof io hdr rest 0 mh (frame_at false func),
    fill_whole hdr io.byte_vec lv,
    slice-append [] hdr 0 (length hdr) refl refl,
    size,
    pos_ne_zero k pos,
    add_size-fits (length hdr) k fits,
  )

  -- The read of a body hands the whole message to the handler: if that returns true, the next
  -- header is read, and otherwise the net entity is notified.
  complete_read-body :
      (eof : ErrorCode) (io : TcpIo B E) (hdr body rest : List ℕ) (func : List ℕ → ℕ) (mh : H)
      → io.byte_vec ≡ resize (length hdr + length body) hdr
      → (h.call_hdlr mh (hdr ++ body) io.remote_endp).0 ≡ true
      → let mh' = (h.call_hdlr mh (hdr ++ body) io.remote_endp).1 in
        complete_read eof io (body ++ rest) (length hdr) (length body) mh (frame_at true func) ≡ (
          (
            record io { byte_vec = resize io.read_size (hdr ++ body) },
            async_read 0 io.read_size mh' (frame_at false func) ∷ [],
            mh',
          ),
          rest,
        )
  unfolding handle_read
  complete_read-body eof io hdr body rest func mh lv more = rw (
    complete_read-append eof io body rest (length hdr) mh (frame_at true func),
    lv,
    fill-resize hdr body (length hdr) (length hdr + length body) refl refl,
    more,
  )

  complete_read-body_refused :
      (eof : ErrorCode) (io : TcpIo B E) (hdr body rest : List ℕ) (func : List ℕ → ℕ) (mh : H)
      → io.byte_vec ≡ resize (length hdr + length body) hdr
      → (h.call_hdlr mh (hdr ++ body) io.remote_endp).0 ≡ false
      → let mh' = (h.call_hdlr mh (hdr ++ body) io.remote_endp).1 in
        complete_read eof io (body ++ rest) (length hdr) (length body) mh (frame_at true func) ≡ (
          (
            record io { byte_vec = hdr ++ body },
            notify (make_error_code message_handler_terminated) ∷ [],
            mh',
          ),
          rest,
        )
  unfolding handle_read
  complete_read-body_refused eof io hdr body rest func mh lv no_more = rw (
    complete_read-append eof io body rest (length hdr) mh (frame_at true func),
    lv,
    fill-resize hdr body (length hdr) (length hdr + length body) refl refl,
    no_more,
  )

  -- A message that the handler takes is followed by the read of the next header.
  serve-msg :
      (fuel : ℕ) (eof : ErrorCode) (io : TcpIo B E) (func : List ℕ → ℕ) (mh : H)
      (hdr body tail : List ℕ)
      → length io.byte_vec ≡ length hdr
      → func hdr ≡ length body
      → 0 < length body
      → length hdr + length body < size_mod
      → (h.call_hdlr mh (hdr ++ body) io.remote_endp).0 ≡ true
      → let mh' = (h.call_hdlr mh (hdr ++ body) io.remote_endp).1 in
        serve
          (suc (suc fuel))
          eof
          io
          (hdr ++ (body ++ tail))
          (async_read 0 (length hdr) mh (frame_at false func) ∷ [])
          mh
        ≡ serve fuel eof
            (record io { byte_vec = resize io.read_size (hdr ++ body) })
            tail
            (async_read 0 io.read_size mh' (frame_at false func) ∷ [])
            mh'
  serve-msg fuel eof io func mh hdr body tail lv size pos fits more =
      let io1 = record io { byte_vec = resize (length hdr + length body) hdr } in
      serve-async_read (suc fuel) eof io (hdr ++ (body ++ tail)) 0 (length hdr) mh mh
        (frame_at false func)
        (complete_read-hdr eof io hdr (body ++ tail) func (length body) mh lv size pos fits)
      ∙ serve-async_read fuel eof io1 (body ++ tail) (length hdr) (length body) mh mh
          (frame_at true func) (complete_read-body eof io1 hdr body tail func mh refl more)

  -- Reading ends with a message that it refuses.
  serve-msg_refused :
      (fuel : ℕ) (eof : ErrorCode) (io : TcpIo B E) (func : List ℕ → ℕ) (mh : H)
      (hdr body tail : List ℕ)
      → length io.byte_vec ≡ length hdr
      → func hdr ≡ length body
      → 0 < length body
      → length hdr + length body < size_mod
      → (h.call_hdlr mh (hdr ++ body) io.remote_endp).0 ≡ false
      → serve
          (suc (suc (suc fuel)))
          eof
          io
          (hdr ++ (body ++ tail))
          (async_read 0 (length hdr) mh (frame_at false func) ∷ [])
          mh
        ≡ some (
          (h.call_hdlr mh (hdr ++ body) io.remote_endp).1,
          make_error_code message_handler_terminated,
        )
  serve-msg_refused fuel eof io func mh hdr body tail lv size pos fits more =
      let io1 = record io { byte_vec = resize (length hdr + length body) hdr } in
      serve-async_read (suc (suc fuel)) eof io (hdr ++ (body ++ tail)) 0 (length hdr) mh mh
        (frame_at false func)
        (complete_read-hdr eof io hdr (body ++ tail) func (length body) mh lv size pos fits)
      ∙ serve-async_read (suc fuel) eof io1 (body ++ tail) (length hdr) (length body) mh mh
          (frame_at true func) (complete_read-body_refused eof io1 hdr body tail func mh refl more)
      ∙ serve-notify (suc fuel) eof _ tail _ _ _ (omega arith) refl

  pub serve-framed :
      (fuel n : ℕ) (eof : ErrorCode) (io : TcpIo B E) (func : List ℕ → ℕ) (mh : H)
      (ms : List VarLenMsg) (rest : List ℕ)
      → is_error eof ≡ true
      → AreFramed n func ms
      → length rest < n
      → length io.byte_vec ≡ n
      → io.read_size ≡ n
      → 2 * length ms + 2 ≤ fuel
      → serve fuel eof io (stream ms ++ rest) (async_read 0 n mh (frame_at false func) ∷ []) mh
        ≡ some (deliver eof io.remote_endp mh (map whole ms))
  serve-framed (suc (suc fuel)) n eof io func mh [] rest ee fr short lv rs enough =
      serve-async_read (suc fuel) eof io rest 0 n mh mh _
        (complete_read-short eof io rest 0 n mh (frame_at false func) ee short)
      ∙ serve-notify (suc fuel) eof io [] eof mh _ (omega arith) refl
  serve-framed (suc (suc (suc fuel))) n eof io func mh (m ∷ ms) rest ee fr short lv rs enough =
      let lv' = lv ∙ sym fr.0.0 in
      let tail = stream ms ++ rest in
      let bytes = m.hdr ++ (m.body ++ tail) in
      let at : ℕ → H → List (TcpEffect B H SimpleFrame) =
        λ k mh0. async_read 0 k mh0 (frame_at false func) ∷ [] in
      let mh' = (h.call_hdlr mh (whole m) io.remote_endp).1 in
      let next = record io { byte_vec = resize io.read_size (whole m) } in
      elim (Bool-cases (h.call_hdlr mh (whole m) io.remote_endp).0) [
        | inl more ↦
            let ih =
              serve-framed (suc fuel) n eof next func mh' ms rest ee fr.1 short
                (length-resize io.read_size (whole m) ∙ rs) rs (omega arith) in
            rw (append_assoc, append_assoc, more)
              (ap (λ k. serve (suc (suc (suc fuel))) eof io bytes (at k mh) mh) (sym fr.0.0)
                ∙ serve-msg (suc fuel) eof io func mh m.hdr m.body tail lv' fr.0.1 fr.0.2 fr.0.3
                    more
                ∙ ap (λ k. serve (suc fuel) eof next tail (at k mh') mh') rs
                ∙ ih)
        | inr no_more ↦
            rw (append_assoc, append_assoc, no_more)
              (ap (λ k. serve (suc (suc (suc fuel))) eof io bytes (at k mh) mh) (sym fr.0.0)
                ∙ serve-msg_refused fuel eof io func mh m.hdr m.body tail lv' fr.0.1 fr.0.2 fr.0.3
                    no_more)
      ]
  serve-framed (suc (suc zero)) n eof io func mh (m ∷ ms) rest ee fr short lv rs enough =
      absurd (omega arith)
  serve-framed (suc zero) n eof io func mh ms rest ee fr short lv rs enough = absurd (omega arith)
  serve-framed zero n eof io func mh ms rest ee fr short lv rs enough = absurd (omega arith)
