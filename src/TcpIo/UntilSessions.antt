-- ===== src/TcpIo/UntilSessions.antt =====
-- Whole sessions of net_ip/detail/tcp_io.hpp from `start_io` with a delimiter on.
use chops.Prelude.{
  ℕ, zero, suc, ◌+◌, ◌≤◌, ◌<◌, ◌≡◌, refl, sym, ap, ◌∙◌, subst, some, List, [], ◌∷◌, ◌++◌, length,
  append_assoc, arith, inl, inr, Option-cases, true, false, Bool-cases, length-append,
}
use chops.NetIpError.{ErrorCode, is_error}
use chops.MsgFrame.{MsgHdlr}
use chops.TcpIo.{TcpIo, async_read_until, start_io_delimiter}
use chops.TcpIo.Reads.{deliver}
use chops.TcpIo.Sessions.{concat}
use chops.TcpIo.ReadUntil.{ReadUntil, IsFirst, IsAbsent, IsFirst-prefix, find-IsFirst}
use chops.TcpIo.Delimited.{AreDelimited}
use chops.TcpIo.UntilReads.{serve_until, serve_until-rest, serve_until-msg, serve_until-refused}

module _ {B E H : Type 0} (F : Type 0) ⦃h : MsgHdlr H E⦄ (r : ReadUntil) where
  serve_until-delimited :
      (fuel : ℕ) (eof : ErrorCode) (io : TcpIo B E) (cs : List (List ℕ)) (mh : H)
      (ms : List (List ℕ)) (rest : List ℕ)
      → is_error eof ≡ true
      → AreDelimited io.delimiter ms
      → IsAbsent io.delimiter rest
      → io.byte_vec ++ concat cs ≡ concat ms ++ rest
      → length ms + 2 ≤ fuel
      → serve_until {F = F} r fuel eof io cs (async_read_until mh ∷ []) mh
        ≡ some (deliver eof io.remote_endp mh ms)
  serve_until-delimited (suc (suc fuel)) eof io cs mh [] rest ee fr none_left e enough =
      serve_until-rest F r fuel eof io cs mh ee (subst (IsAbsent io.delimiter) (sym e) none_left)
  serve_until-delimited (suc (suc fuel)) eof io cs mh (m ∷ ms) rest ee fr none_left e enough =
      let e' = e ∙ append_assoc m (concat ms) rest in
      elim (Bool-cases (h.call_hdlr mh m io.remote_endp).0) [
        | inl more ↦
            let v =
              serve_until-msg F r (suc fuel) eof io cs mh m (concat ms ++ rest) e' fr.0 more in
            rw more (
              v.served
              ∙ serve_until-delimited (suc fuel) eof (record io { byte_vec = v.buffer }) v.chunks
                  (h.call_hdlr mh m io.remote_endp).1 ms rest ee fr.1 none_left v.bytes
                  (omega arith))
        | inr no_more ↦
            rw no_more
              (serve_until-refused F r fuel eof io cs mh m (concat ms ++ rest) e' fr.0 no_more)
      ]
  serve_until-delimited (suc zero) eof io cs mh ms rest ee fr none_left e enough =
      absurd (omega arith)
  serve_until-delimited zero eof io cs mh ms rest ee fr none_left e enough = absurd (omega arith)

  -- A handler that is not started and whose socket has a remote endpoint starts with a delimiter. When
  -- what it holds and what the peer sends are messages that each end with their only delimiter, and a
  -- rest without one, then in whatever chunks the bytes arrive the message handler is called once for
  -- each message, in order, until it returns false; the net entity is notified once, of that or of
  -- the end.
  pub start_io_delimiter-AreDelimited :
      (fuel : ℕ) (eof : ErrorCode) (io : TcpIo B E) (remote : ErrorCode × E) (delim : List ℕ)
      (mh : H) (cs ms : List (List ℕ)) (rest : List ℕ)
      → io.io_common.io_started ≡ false
      → is_error remote.0 ≡ false
      → is_error eof ≡ true
      → AreDelimited delim ms
      → IsAbsent delim rest
      → io.byte_vec ++ concat cs ≡ concat ms ++ rest
      → length ms + 2 ≤ fuel
      → let (started, io', calls) = start_io_delimiter {F = F} io remote delim mh in
        (started ≡ true)
        × (serve_until r fuel eof io' cs calls mh ≡ some (deliver eof remote.1 mh ms))
  unfolding start_io_delimiter
  start_io_delimiter-AreDelimited fuel eof io remote delim mh cs ms rest s ok ee fr none_left e
        enough =
      rw (s, ok) (refl, serve_until-delimited fuel eof _ cs mh ms rest ee fr none_left e enough)

-- Bytes as messages that end with a delimiter, and a rest.
record Split (delim bytes : List ℕ) : Type 0 where
  msgs : List (List ℕ)
  rest : List ℕ
  same : concat msgs ++ rest ≡ bytes
  delimited : AreDelimited delim msgs
  none_left : IsAbsent delim rest
  short : length msgs ≤ length bytes

module _ (r : ReadUntil) where
  -- All bytes are such, for a delimiter that is not empty.
  split :
      (fuel : ℕ) (delim bytes : List ℕ) → 0 < length delim → length bytes < fuel → Split delim bytes
  split zero delim bytes pos enough = absurd (omega arith)
  split (suc fuel) delim bytes pos enough = elim (Option-cases (r.find delim bytes)) [
    | inl e ↦ record {
      msgs = [];
      rest = bytes;
      same = refl;
      delimited = tt;
      none_left = λ k. r.find-none delim bytes k e;
      short = omega arith;
    }
    | inr (k, e) ↦
        let f = find-IsFirst r delim bytes k e in
        let m = f.0.before ++ delim in
        let len = ap length f.0.split ∙ length-append m f.0.behind in
        let dl = length-append f.0.before delim in
        let size = f.0.size in
        let later = split fuel delim f.0.behind pos (omega (arith, len, dl)) in
        record {
          msgs = m ∷ later.msgs;
          rest = later.rest;
          same =
              append_assoc m (concat later.msgs) later.rest
              ∙ ap (λ l. m ++ l) later.same
              ∙ sym f.0.split;
          delimited = (
            subst (IsFirst delim m) (sym size) (
                IsFirst-prefix delim m f.0.behind k (subst (λ l. IsFirst delim l k) f.0.split f)
                  (omega (arith, size))),
            later.delimited,
          );
          none_left = later.none_left;
          short = omega (arith, later.short, len, dl);
        }
  ]

module _ {B E H : Type 0} (F : Type 0) ⦃h : MsgHdlr H E⦄ (r : ReadUntil) where
  -- Whatever the peer sends, and in whatever chunks it arrives: a session with a delimiter that is not
  -- empty comes to its end within as many reads as there are bytes, and one more, and two sessions
  -- whose chunks hold the same bytes have the same result.
  pub serve_until-concat :
      (fuel : ℕ) (eof : ErrorCode) (io : TcpIo B E) (cs ds : List (List ℕ)) (mh : H)
      → is_error eof ≡ true
      → 0 < length io.delimiter
      → concat cs ≡ concat ds
      → length (io.byte_vec ++ concat cs) + 2 ≤ fuel
      → (x : H × ErrorCode) × (serve_until {F = F} r fuel eof io cs (async_read_until mh ∷ []) mh
          ≡ some x)
        × (serve_until {F = F} r fuel eof io ds (async_read_until mh ∷ []) mh ≡ some x)
  serve_until-concat fuel eof io cs ds mh ee pos same enough =
      let bytes = io.byte_vec ++ concat cs in
      let s = split r (suc (length bytes)) io.delimiter bytes pos (omega arith) in
      let long = s.short in
      let at = λ (xs : List (List ℕ)) (e : io.byte_vec ++ concat xs ≡ concat s.msgs ++ s.rest).
        serve_until-delimited F r fuel eof io xs mh s.msgs s.rest ee s.delimited s.none_left e
          (omega arith) in
      (
        deliver eof io.remote_endp mh s.msgs,
        at cs (sym s.same),
        at ds (ap (λ l. io.byte_vec ++ l) (sym same) ∙ sym s.same),
      )
