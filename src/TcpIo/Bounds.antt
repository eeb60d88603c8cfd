-- ===== src/TcpIo/Bounds.antt =====
-- The memory that a TCP io handler of net_ip/detail/tcp_io.hpp reads into: a read that is outstanding has
-- the place of its buffer in `m_byte_vec`, while the handler also sends and writes.
use chops.Prelude.{
  ℕ, ◌+◌, ◌*◌, ◌≤◌, ◌<◌, ◌∙◌, size_mod, add_size, add_size-fits, length-fill, length-take, ◌≡◌,
  refl, sym, ap, subst, List, [], ◌∷◌, length, arith, fill, take, length-resize, Bool-cases, inl,
  inr, ◌==◌, slice,
}
use chops.NetIpError.{ErrorCode, is_error}
use chops.OutputQueue.{SharedBuffer}
use chops.MsgFrame.{MsgHdlr, MsgFrame}
use chops.TcpIo.{
  TcpIo, TcpEffect, async_read, async_read_until, async_write, shutdown_socket, close_socket,
  notify, start_io, handle_read, send, handle_write,
}

-- The buffers of these calls end where the vector ends.
abbrev pub InBounds : {B H F : Type 0} → List ℕ → List (TcpEffect B H F) → Type 0
InBounds v [] = Unit {0}
InBounds v (async_read off len mh mf ∷ cs) = (off + len ≡ length v) × InBounds v cs
InBounds v (_ ∷ cs) = InBounds v cs

-- What happens to a handler: its read completes with these bytes, it sends, or its write completes.
pub data IoEvent (B : Type 0) : Type 0 where
  reads : List ℕ → ErrorCode → IoEvent B
  sends : B → IoEvent B
  writes : ErrorCode → IoEvent B

-- A frame as it is after these reads, and whether it never asks for more than `k` bytes at once.
module _ {F : Type 0} ⦃f : MsgFrame F⦄ where
  abbrev pub after_reads : F → List (List ℕ) → F
  after_reads mf [] = mf
  after_reads mf (bytes ∷ rest) = after_reads (f.call_frame mf bytes).1 rest

  abbrev pub AsksAtMost : ℕ → F → Type 0
  AsksAtMost k mf =
      (rest : List (List ℕ)) (bytes : List ℕ) → (f.call_frame (after_reads mf rest) bytes).0 ≤ k

  -- The frames of these calls do not.
  abbrev AskAtMost : {B H : Type 0} → ℕ → List (TcpEffect B H F) → Type 0
  AskAtMost k [] = Unit {0}
  AskAtMost k (async_read off len mh mf ∷ cs) = AsksAtMost k mf × AskAtMost k cs
  AskAtMost k (_ ∷ cs) = AskAtMost k cs

module _ {B H F : Type 0} where
  -- Without a read among the calls, nothing is read.
  abbrev NoReads : List (TcpEffect B H F) → Type 0
  NoReads [] = Unit {0}
  NoReads (async_read _ _ _ _ ∷ cs) = ⊥
  NoReads (_ ∷ cs) = NoReads cs

  NoReads-InBounds : (v : List ℕ) (cs : List (TcpEffect B H F)) → NoReads cs → InBounds v cs
  NoReads-InBounds v [] n = tt
  NoReads-InBounds v (async_read _ _ _ _ ∷ cs) n = elim n [ ]
  NoReads-InBounds v (async_read_until _ ∷ cs) n = NoReads-InBounds v cs n
  NoReads-InBounds v (async_write _ ∷ cs) n = NoReads-InBounds v cs n
  NoReads-InBounds v (shutdown_socket ∷ cs) n = NoReads-InBounds v cs n
  NoReads-InBounds v (close_socket ∷ cs) n = NoReads-InBounds v cs n
  NoReads-InBounds v (notify _ ∷ cs) n = NoReads-InBounds v cs n

module _ {B E : Type 0} where
  -- A read that completes leaves the vector as long as it was.
  length-read :
      (io : TcpIo B E) (off len : ℕ) (bytes : List ℕ)
      → off + len ≡ length io.byte_vec
      → length (fill off (take len bytes) io.byte_vec) ≡ length io.byte_vec
  length-read io off len bytes e =
      length-fill off (take len bytes) io.byte_vec (omega (arith, e, length-take len bytes))

module _ {B E : Type 0} (H F : Type 0) ⦃b : SharedBuffer B⦄ where
  send-byte_vec :
      (io : TcpIo B E) (buf : B)
      → let io' = (send {H = H} {F = F} io buf).0 in
        (io'.byte_vec ≡ io.byte_vec) × (io'.read_size ≡ io.read_size)
  unfolding send
  send-byte_vec io buf = (refl, refl)

  handle_write-byte_vec :
      (io : TcpIo B E) (err : ErrorCode)
      → let io' = (handle_write {H = H} {F = F} io err).0 in
        (io'.byte_vec ≡ io.byte_vec) × (io'.read_size ≡ io.read_size)
  unfolding handle_write
  handle_write-byte_vec io err = elim (Bool-cases (is_error err)) [
    | inl bad ↦ rw bad (refl, refl)
    | inr good ↦ rw good (refl, refl)
  ]

module _ {B E H F : Type 0} ⦃b : SharedBuffer B⦄ ⦃h : MsgHdlr H E⦄ ⦃f : MsgFrame F⦄ where
  -- The handler, and the calls that it made when its last read was started or completed. A read puts no
  -- more bytes into its buffer than the buffer has.
  abbrev pub io_step :
      TcpIo B E × List (TcpEffect B H F) → IoEvent B → TcpIo B E × List (TcpEffect B H F)
  io_step (io, async_read off len mh mf ∷ cs) (reads bytes err) =
      let r =
        handle_read (record io { byte_vec = fill off (take len bytes) io.byte_vec }) off len err mh
          mf in
      (r.0, r.1)
  io_step (io, cs) (reads bytes err) = (io, cs)
  io_step (io, cs) (sends buf) = ((send {H = H} {F = F} io buf).0, cs)
  io_step (io, cs) (writes err) = ((handle_write {H = H} {F = F} io err).0, cs)

  abbrev pub io_run :
      TcpIo B E × List (TcpEffect B H F) → List (IoEvent B) → TcpIo B E × List (TcpEffect B H F)
  io_run s [] = s
  io_run s (e ∷ es) = io_run (io_step s e) es

  -- The calls are in bounds, and the vector and the size of a first read have at most `n` bytes.
  record Inside (n k : ℕ) (io : TcpIo B E) (cs : List (TcpEffect B H F)) : Type 0 where
    inside : InBounds io.byte_vec cs
    short : length io.byte_vec ≤ n
    small : io.read_size ≤ n
    asking : AskAtMost k cs

  handle_read-Inside :
      (n k : ℕ) (io : TcpIo B E) (off len : ℕ) (err : ErrorCode) (mh : H) (mf : F)
      → AsksAtMost k mf
      → n + k < size_mod
      → length io.byte_vec ≤ n
      → io.read_size ≤ n
      → let r = handle_read io off len err mh mf in Inside (n + k) k r.0 r.1
  unfolding handle_read
  handle_read-Inside n k io off len err mh mf asks fits short small =
      let bytes = slice off len io.byte_vec in
      let r = f.call_frame mf bytes in
      let later : AsksAtMost k r.1 = λ rest more. asks (bytes ∷ rest) more in
      let most = asks [] (slice off len io.byte_vec) in
      elim (Bool-cases (is_error err)) [
        | inl bad ↦
            rw bad (record { inside = tt; short = omega arith; small = omega arith; asking = tt })
        | inr good ↦ elim (Bool-cases (r.0 == 0)) [
          | inl whole ↦ elim (Bool-cases (h.call_hdlr mh io.byte_vec io.remote_endp).0) [
            | inl more ↦
                let size = length-resize io.read_size io.byte_vec in
                rw (good, whole, more)
                  (record {
                    inside = (omega (arith, size), tt);
                    short = omega (arith, size);
                    small = omega arith;
                    asking = (later, tt);
                  })
            | inr no_more ↦
                rw (good, whole, no_more)
                  (record { inside = tt; short = omega arith; small = omega arith; asking = tt })
          ]
          | inr part ↦
              let total = add_size (length io.byte_vec) r.0 in
              let sum : total ≡ length io.byte_vec + r.0 =
                add_size-fits (length io.byte_vec) r.0 (omega (arith, most, fits, short)) in
              let size = length-resize total io.byte_vec ∙ sum in
              rw (good, part)
                (record {
                  inside = (sym size, tt);
                  short = omega (arith, size, most, short);
                  small = omega arith;
                  asking = (later, tt);
                })
        ]
      ]

  Inside-same :
      (n m k : ℕ) (io io' : TcpIo B E) (cs : List (TcpEffect B H F))
      → Inside n k io cs
      → (io'.byte_vec ≡ io.byte_vec) × (io'.read_size ≡ io.read_size)
      → n ≤ m
      → Inside m k io' cs
  Inside-same n m k io io' cs v e le = record {
    inside = subst (λ l. InBounds l cs) (sym e.0) v.inside;
    short = omega (arith, ap length e.0, v.short);
    small = omega (arith, e.1, v.small);
    asking = v.asking;
  }

  io_step-Inside :
      (n k : ℕ) (io : TcpIo B E) (cs : List (TcpEffect B H F)) (e : IoEvent B)
      → n + k < size_mod
      → Inside n k io cs
      → let s = io_step (io, cs) e in Inside (n + k) k s.0 s.1
  io_step-Inside n k io cs (sends buf) fits v =
      Inside-same n (n + k) k io _ cs v (send-byte_vec H F io buf) (omega arith)
  io_step-Inside n k io cs (writes err) fits v =
      Inside-same n (n + k) k io _ cs v (handle_write-byte_vec H F io err) (omega arith)
  io_step-Inside n k io [] (reads bytes err) fits v = record {
    inside = tt;
    short = omega (arith, v.short);
    small = omega (arith, v.small);
    asking = tt;
  }
  io_step-Inside n k io (async_read off len mh mf ∷ cs) (reads bytes err) fits v =
      handle_read-Inside n k _ off len err mh mf v.asking.0 fits
        (omega (arith, v.short, length-read io off len bytes v.inside.0)) v.small
  io_step-Inside n k io (_ ∷ cs) (reads bytes err) fits v = record {
    inside = v.inside;
    short = omega (arith, v.short);
    small = omega (arith, v.small);
    asking = v.asking;
  }

  io_run-Inside :
      (n k : ℕ) (io : TcpIo B E) (cs : List (TcpEffect B H F)) (es : List (IoEvent B))
      → n + k * length es < size_mod
      → Inside n k io cs
      → let s = io_run (io, cs) es in InBounds s.0.byte_vec s.1
  io_run-Inside n k io cs [] fits v = v.inside
  io_run-Inside n k io cs (e ∷ es) fits v =
      let s = io_step (io, cs) e in
      io_run-Inside (n + k) k s.0 s.1 es (omega (arith, fits))
        (io_step-Inside n k io cs e (omega (arith, fits)) v)

  io_step-NoReads :
      (io : TcpIo B E) (cs : List (TcpEffect B H F)) (e : IoEvent B)
      → NoReads cs
      → (io_step (io, cs) e).1 ≡ cs
  io_step-NoReads io cs (sends buf) n = refl
  io_step-NoReads io cs (writes err) n = refl
  io_step-NoReads io [] (reads bytes err) n = refl
  io_step-NoReads io (async_read _ _ _ _ ∷ cs) (reads bytes err) n = elim n [ ]
  io_step-NoReads io (async_read_until _ ∷ cs) (reads bytes err) n = refl
  io_step-NoReads io (async_write _ ∷ cs) (reads bytes err) n = refl
  io_step-NoReads io (shutdown_socket ∷ cs) (reads bytes err) n = refl
  io_step-NoReads io (close_socket ∷ cs) (reads bytes err) n = refl
  io_step-NoReads io (notify _ ∷ cs) (reads bytes err) n = refl

  io_run-NoReads :
      (io : TcpIo B E) (cs : List (TcpEffect B H F)) (es : List (IoEvent B))
      → NoReads cs
      → let s = io_run (io, cs) es in InBounds s.0.byte_vec s.1
  io_run-NoReads io cs [] n = NoReads-InBounds io.byte_vec cs n
  io_run-NoReads io cs (e ∷ es) n =
      let s = io_step (io, cs) e in
      io_run-NoReads s.0 s.1 es (subst (λ l. NoReads l) (sym (io_step-NoReads io cs e n)) n)

  -- Whatever the message handler returns, and whatever is read, sent and written after `start_io`, where
  -- the message frame never asks for more than `k` bytes at once, and the header size and `k` bytes for each
  -- event have a sum below 2^64: while a read is outstanding, its buffer lies within the vector of
  -- the handler and ends where that ends.
  pub start_io-InBounds :
      (io : TcpIo B E) (remote : ErrorCode × E) (header_size k : ℕ) (mh : H) (mf : F)
      (es : List (IoEvent B))
      → AsksAtMost k mf
      → header_size + k * length es < size_mod
      → let (started, io', calls) = start_io io remote header_size mh mf in
        let s = io_run (io', calls) es in InBounds s.0.byte_vec s.1
  unfolding start_io
  start_io-InBounds io remote header_size k mh mf es asks fits =
      elim (Bool-cases io.io_common.io_started) [
        | inl again ↦ rw again (io_run-NoReads _ [] es tt)
        | inr fresh ↦ elim (Bool-cases (is_error remote.0)) [
          | inl bad ↦ rw (fresh, bad) (io_run-NoReads _ (notify remote.0 ∷ []) es tt)
          | inr good ↦
              let size = length-resize header_size io.byte_vec in
              rw (fresh, good)
                (io_run-Inside header_size k _ _ es fits (record {
                  inside = (omega (arith, size), tt);
                  short = omega (arith, size);
                  small = omega arith;
                  asking = (asks, tt);
                }))
        ]
      ]
