-- ===== src/TcpIo/UntilReads.antt =====
-- A connection of net_ip/detail/tcp_io.hpp that is read by delimiter to its end.
use chops.Prelude.{
  ℕ, zero, suc, ◌≡◌, refl, sym, ap, ◌∙◌, subst, Option, none, some, List, [], ◌∷◌, ◌++◌, length,
  append_assoc, true, false, slice, take-append, drop-append,
}
use chops.NetIpError.{ErrorCode, is_error, no_error, make_error_code, message_handler_terminated}
use chops.MsgFrame.{MsgHdlr}
use chops.TcpIo.{TcpIo, TcpEffect, async_read_until, notify, handle_read_until}
use chops.TcpIo.Sessions.{concat}
use chops.TcpIo.ReadUntil.{
  ReadUntil, IsFirst, IsAbsent, IsFirst-append, read_until, EndsAt-le, prefix_le,
}
use chops.TcpIo.Delimited.{Reads, read_until-Reads, read_until-IsAbsent}

append_cancel : (x y z : List ℕ) → x ++ y ≡ x ++ z → y ≡ z
append_cancel [] y z e = e
append_cancel (a ∷ x) y z e = append_cancel x y z (cc e)

-- Where the bytes begin with a message, so does the buffer.
first_message :
    (r : ReadUntil) (delim v : List ℕ) (cs : List (List ℕ)) (m tail : List ℕ)
    → v ++ concat cs ≡ m ++ tail
    → IsFirst delim m (length m)
    → (x : Reads r delim v cs (length m)) × (z : List ℕ) × (x.buffer ≡ m ++ z)
first_message r delim v cs m tail e f =
    let x = read_until-Reads r delim v cs (length m) (
      subst (λ l. IsFirst delim l (length m)) (sym e) (IsFirst-append delim m tail (length m) f)) in
    let (z, p) =
      prefix_le x.buffer (concat x.chunks) m tail (x.same_bytes ∙ e)
        (EndsAt-le delim x.buffer (length m) x.found.0) in
    (x, z, p)

-- What the completion handler of `async_read_until` is given.
abbrev pub until_error : ErrorCode → Option ℕ → ErrorCode
until_error eof none = eof
until_error eof (some n) = no_error

abbrev pub until_size : Option ℕ → ℕ
until_size none = 0
until_size (some n) = n

module _ {B E H : Type 0} ⦃h : MsgHdlr H E⦄ where
  -- The completion handler, for a buffer that begins with a message.
  handle_read_until-more :
      {F : Type 0} (io : TcpIo B E) (m z : List ℕ) (mh : H)
      → io.byte_vec ≡ m ++ z
      → (h.call_hdlr mh m io.remote_endp).0 ≡ true
      → let mh' = (h.call_hdlr mh m io.remote_endp).1 in
        handle_read_until {F = F} io no_error (length m) mh
        ≡ (record io { byte_vec = z }, async_read_until mh' ∷ [], mh')
  unfolding handle_read_until slice
  handle_read_until-more io m z mh e more = rw (e, take-append m z, more, drop-append m z)

  handle_read_until-refused :
      {F : Type 0} (io : TcpIo B E) (m z : List ℕ) (mh : H)
      → io.byte_vec ≡ m ++ z
      → (h.call_hdlr mh m io.remote_endp).0 ≡ false
      → handle_read_until {F = F} io no_error (length m) mh ≡ (
        io,
        notify (make_error_code message_handler_terminated) ∷ [],
        (h.call_hdlr mh m io.remote_endp).1,
      )
  unfolding handle_read_until slice
  handle_read_until-refused io m z mh e no_more = rw (e, take-append m z, no_more)

module _ {B E H F : Type 0} ⦃h : MsgHdlr H E⦄ (r : ReadUntil) where
  -- The completion of one `async_read_until`, with the chunks that are left.
  unfoldable pub complete_read_until :
      ErrorCode
      → TcpIo B E
      → List (List ℕ)
      → H
      → (TcpIo B E × List (TcpEffect B H F) × H) × List (List ℕ)
  complete_read_until eof io cs mh =
      let (n, buffer, rest) = read_until r io.delimiter io.byte_vec cs in
      (
        handle_read_until (record io { byte_vec = buffer }) (until_error eof n) (until_size n) mh,
        rest,
      )

  -- The reads until the net entity is notified; `none` where the fuel runs out, or where a call is
  -- neither a read nor a notification.
  unfoldable pub serve_until :
      ℕ
      → ErrorCode
      → TcpIo B E
      → List (List ℕ)
      → List (TcpEffect B H F)
      → H
      → Option (H × ErrorCode)
  serve_until zero eof io cs calls mh = none
  serve_until (suc n) eof io cs (async_read_until mh ∷ []) _ =
      let ((io', calls, mh'), rest) = complete_read_until eof io cs mh in
      serve_until n eof io' rest calls mh'
  serve_until (suc n) eof io cs (notify err ∷ []) mh = some (mh, err)
  serve_until (suc n) eof io cs _ mh = none

  serve_until-read :
      (n : ℕ) (eof : ErrorCode) (io : TcpIo B E) (cs : List (List ℕ)) (mh mh0 : H)
      {x : (TcpIo B E × List (TcpEffect B H F) × H) × List (List ℕ)}
      → complete_read_until eof io cs mh ≡ x
      → serve_until (suc n) eof io cs (async_read_until mh ∷ []) mh0
        ≡ serve_until n eof x.0.0 x.1 x.0.1 x.0.2
  unfolding serve_until
  serve_until-read n eof io cs mh mh0 e =
      ap
        (λ (x : (TcpIo B E × List (TcpEffect B H F) × H) × List (List ℕ)).
          serve_until n eof x.0.0 x.1 x.0.1 x.0.2)
        e

module _ {B E H : Type 0} (F : Type 0) ⦃h : MsgHdlr H E⦄ (r : ReadUntil) where
  serve_until-notify :
      (n : ℕ) (eof : ErrorCode) (io : TcpIo B E) (cs : List (List ℕ)) (err : ErrorCode) (mh : H)
      → serve_until {F = F} r (suc n) eof io cs (notify err ∷ []) mh ≡ some (mh, err)
  unfolding serve_until
  serve_until-notify n eof io cs err mh = refl

  -- The end of the bytes.
  complete_read_until-rest :
      (eof : ErrorCode) (io : TcpIo B E) (cs : List (List ℕ)) (mh : H)
      → is_error eof ≡ true
      → IsAbsent io.delimiter (io.byte_vec ++ concat cs)
      → complete_read_until {F = F} r eof io cs mh
        ≡ ((record io { byte_vec = io.byte_vec ++ concat cs }, notify eof ∷ [], mh), [])
  unfolding complete_read_until handle_read_until
  complete_read_until-rest eof io cs mh ee a =
      rw (read_until-IsAbsent r io.delimiter io.byte_vec cs a, ee) refl

-- A session of messages and a rest without a delimiter.
module _ {B E H : Type 0} (F : Type 0) ⦃h : MsgHdlr H E⦄ (r : ReadUntil) where
  pub serve_until-rest :
      (n : ℕ) (eof : ErrorCode) (io : TcpIo B E) (cs : List (List ℕ)) (mh : H)
      → is_error eof ≡ true
      → IsAbsent io.delimiter (io.byte_vec ++ concat cs)
      → serve_until {F = F} r (suc (suc n)) eof io cs (async_read_until mh ∷ []) mh ≡ some (mh, eof)
  serve_until-rest n eof io cs mh ee a =
      serve_until-read r (suc n) eof io cs mh mh (complete_read_until-rest F r eof io cs mh ee a)
      ∙ serve_until-notify F r n eof _ [] eof mh

  -- One message, at the beginning of the bytes: where the buffer and the chunks are left.
  pub record Serves (fuel : ℕ) (eof : ErrorCode) (io : TcpIo B E) (cs : List (List ℕ)) (mh : H)
      (tail : List ℕ) (mh' : H) : Type 0 where
    pub buffer : List ℕ
    pub chunks : List (List ℕ)
    pub bytes : buffer ++ concat chunks ≡ tail
    pub served :
        serve_until {F = F} r (suc fuel) eof io cs (async_read_until mh ∷ []) mh
        ≡ serve_until {F = F} r fuel eof
            (record io { byte_vec = buffer })
            chunks
            (async_read_until mh' ∷ [])
            mh'

  pub serve_until-msg :
      (fuel : ℕ) (eof : ErrorCode) (io : TcpIo B E) (cs : List (List ℕ)) (mh : H) (m tail : List ℕ)
      → io.byte_vec ++ concat cs ≡ m ++ tail
      → IsFirst io.delimiter m (length m)
      → (h.call_hdlr mh m io.remote_endp).0 ≡ true
      → Serves fuel eof io cs mh tail (h.call_hdlr mh m io.remote_endp).1
  unfolding complete_read_until
  serve_until-msg fuel eof io cs mh m tail e f more =
      let v = first_message r io.delimiter io.byte_vec cs m tail e f in
      record {
        buffer = v.1;
        chunks = v.0.chunks;
        bytes = append_cancel m _ tail (
            sym (append_assoc m v.1 (concat v.0.chunks))
            ∙ ap (λ l. l ++ concat v.0.chunks) (sym v.2)
            ∙ v.0.same_bytes
            ∙ e);
        served = serve_until-read r fuel eof io cs mh mh (
            rw v.0.result (
              ap (λ x. (x, v.0.chunks))
                (handle_read_until-more (record io { byte_vec = v.0.buffer }) m v.1 mh v.2 more)));
      }

  -- A message that the handler refuses.
  pub serve_until-refused :
      (fuel : ℕ) (eof : ErrorCode) (io : TcpIo B E) (cs : List (List ℕ)) (mh : H) (m tail : List ℕ)
      → io.byte_vec ++ concat cs ≡ m ++ tail
      → IsFirst io.delimiter m (length m)
      → (h.call_hdlr mh m io.remote_endp).0 ≡ false
      → serve_until {F = F} r (suc (suc fuel)) eof io cs (async_read_until mh ∷ []) mh
        ≡ some ((h.call_hdlr mh m io.remote_endp).1, make_error_code message_handler_terminated)
  unfolding complete_read_until
  serve_until-refused fuel eof io cs mh m tail e f no_more =
      let v = first_message r io.delimiter io.byte_vec cs m tail e f in
      serve_until-read r (suc fuel) eof io cs mh mh (
        ap
          (λ x. (
            handle_read_until (record io { byte_vec = x.1 }) (until_error eof x.0) (until_size x.0)
                mh,
            x.2,
          ))
          v.0.result
        ∙ ap (λ x. (x, v.0.chunks))
            (handle_read_until-refused (record io { byte_vec = v.0.buffer }) m v.1 mh v.2 no_more))
      ∙ serve_until-notify F r fuel eof _ v.0.chunks _ _
