-- ===== src/BasicIoInterface/Buffers.antt =====
-- The other overloads of `send` of net_ip/basic_io_interface.hpp, which make a buffer of what they are
-- given, and `get_socket`.
use chops.Prelude.{
  ℕ, ◌≡◌, ◌≤◌, refl, ap, ◌∙◌, true, none, some, List, length, take, length-take, add_size, ==_refl,
  arith,
}
use chops.OutputQueue.{SharedBuffer, add_element, get_queue_stats}
use chops.IoCommon.{start_write_setup}
use chops.IoCommon
use chops.WeakPtr.{Heap, Outcome, returns}
use chops.TcpIo.{TcpIo}
use chops.TcpIo
use chops.BasicIoInterface.{BasicIoInterface, IoHandler, Sender, send, get_output_queue_stats}
use chops.BasicIoInterface.Handlers.{tcp_handler, tcp_sender}

-- The constructors of `const_shared_buffer` of the utility repository, from bytes that are copied and
-- from a `mutable_shared_buffer` that is moved, and the bytes that a buffer then holds.
pub record MakeBuffer (B M : Type 0) ⦃b : SharedBuffer B⦄ : Type 0 where
  pub copy_bytes : List ℕ → B
  pub from_mutable : M → B
  pub bytes_of : B → List ℕ
  pub mutable_bytes : M → List ℕ
  pub copy_bytes-bytes_of : (bytes : List ℕ) → bytes_of (copy_bytes bytes) ≡ bytes
  pub from_mutable-bytes_of : (m : M) → bytes_of (from_mutable m) ≡ mutable_bytes m
  pub size-bytes_of : (buf : B) → b.size buf ≡ length (bytes_of buf)

module _ {O B E M : Type 0} ⦃ioh : IoHandler O⦄ ⦃b : SharedBuffer B⦄ (sender : Sender O B E)
    (m : MakeBuffer B M) where
  -- `buf` is the memory from the pointer on.
  unfoldable pub send_bytes : Heap O → BasicIoInterface → List ℕ → ℕ → Outcome (Unit {0}) × Heap O
  unfolding send
  send_bytes hp io buf sz = send ⦃s = sender⦄ hp io (m.copy_bytes (take sz buf)) none

  unfoldable pub send_mutable : Heap O → BasicIoInterface → M → Outcome (Unit {0}) × Heap O
  unfolding send
  send_mutable hp io buf = send ⦃s = sender⦄ hp io (m.from_mutable buf) none

  unfoldable pub send_bytes_endp :
      Heap O → BasicIoInterface → List ℕ → ℕ → E → Outcome (Unit {0}) × Heap O
  unfolding send
  send_bytes_endp hp io buf sz endp =
      send ⦃s = sender⦄ hp io (m.copy_bytes (take sz buf)) (some endp)

  unfoldable pub send_mutable_endp : Heap O → BasicIoInterface → M → E → Outcome (Unit {0}) × Heap O
  unfolding send
  send_mutable_endp hp io buf endp = send ⦃s = sender⦄ hp io (m.from_mutable buf) (some endp)

-- What was copied has the size that was asked for.
size-copy_bytes :
    {B M : Type 0} ⦃b : SharedBuffer B⦄ (m : MakeBuffer B M) (buf : List ℕ) (sz : ℕ)
    → sz ≤ length buf
    → b.size (m.copy_bytes (take sz buf)) ≡ sz
size-copy_bytes m buf sz h =
    m.size-bytes_of (m.copy_bytes (take sz buf))
    ∙ ap length (m.copy_bytes-bytes_of (take sz buf))
    ∙ omega (arith, length-take sz buf)

module _ {B E M : Type 0} ⦃b : SharedBuffer B⦄ (m : MakeBuffer B M) where
  -- Where the io of a TCP handler is started and a write is in progress: bytes that are sent through
  -- its interface, no more than the memory holds, are one more element of the output queue, and `sz`
  -- more bytes in it, modulo 2^64, in the statistics that the interface gives then.
  pub send_bytes-get_output_queue_stats :
      (hp : Heap (TcpIo B E)) (p : ℕ) (io : TcpIo B E) (buf : List ℕ) (sz : ℕ)
      → hp p ≡ some io
      → io.io_common.io_started ≡ true
      → io.io_common.write_in_progress ≡ true
      → sz ≤ length buf
      → let i : BasicIoInterface = record { ioh_wptr = some p } in
        let (sent, hp') = send_bytes tcp_sender m hp i buf sz in
        (sent ≡ returns tt)
        × ((get_output_queue_stats hp' i).0
            ≡ returns (record {
              output_queue_size = add_size io.io_common.outq.queue_size 1;
              bytes_in_output_queue = add_size io.io_common.outq.current_num_bytes sz;
            }))
  unfolding send_bytes tcp_handler tcp_sender get_output_queue_stats TcpIo.send start_write_setup
      add_element TcpIo.get_output_queue_stats IoCommon.get_output_queue_stats get_queue_stats
  send_bytes-get_output_queue_stats hp p io buf sz e on busy h =
      rw (e, on, busy, ==_refl p, size-copy_bytes m buf sz h) (refl, refl)
