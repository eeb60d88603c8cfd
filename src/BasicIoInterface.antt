-- ===== src/BasicIoInterface.antt =====
-- net_ip/basic_io_interface.hpp: the interface through which an application uses an io handler. What a
-- method of the handler calls in its turn has no part here; the handler's own file models it.
use chops.Prelude.{ℕ, ◌≡◌, Bool, true, false, not, ◌&&◌, ◌||◌, Option, none, some, List}
use chops.NetIpError.{ErrorCode}
use chops.OutputQueue.{OutputQueueStats, SharedBuffer}
use chops.IoCommon.{has_value}
use chops.MsgFrame.{NullFrame}
use chops.TcpIo.{TcpIo, start_io_read, start_io_delimiter}
use chops.TcpIo
use chops.UdpEntityIo.{UdpEntityIo, start_io_endp, start_io_send_only_endp}
use chops.UdpEntityIo
use chops.WeakPtr.{
  Heap, Outcome, returns, throws, ptr_eq, ptr_lt, lock, put, call_method, socket_at,
}
pub mod Handlers
pub mod Order
pub mod Once
pub mod Buffers
mod Examples

-- What the interface asks of an io handler, and what its clients rely on.
pub record IoHandler (O : Type 0) : Type 0 where
  pub is_io_started : O → Bool
  pub get_output_queue_stats : O → OutputQueueStats
  pub stop_io : O → Bool × O
  pub stop_io-result : (o : O) → (stop_io o).0 ≡ is_io_started o
  pub stop_io-off : (o : O) → is_io_started (stop_io o).1 ≡ false

-- The same of its two overloads of `send`.
pub record Sender (O B E : Type 0) ⦃ioh : IoHandler O⦄ : Type 0 where
  pub send : O → B → Option E → O
  pub send-is_io_started :
      (o : O) (buf : B) (endp : Option E)
      → ioh.is_io_started (send o buf endp) ≡ ioh.is_io_started o

pub record BasicIoInterface : Type 0 where
  pub ioh_wptr : Option ℕ

-- The default constructor.
abbrev pub new_interface : BasicIoInterface
new_interface = record { ioh_wptr = none }

module _ {O : Type 0} where
  abbrev pub is_valid : Heap O → BasicIoInterface → Bool
  is_valid hp io = has_value (lock hp io.ioh_wptr)

  -- `operator==` and `operator<`.
  abbrev pub equals : Heap O → BasicIoInterface → BasicIoInterface → Bool
  equals hp a b =
      let lp = lock hp a.ioh_wptr in
      let rp = lock hp b.ioh_wptr in
      (has_value lp && has_value rp && ptr_eq lp rp) || (not (has_value lp) && not (has_value rp))

  abbrev pub less : Heap O → BasicIoInterface → BasicIoInterface → Bool
  less hp a b =
      let lp = lock hp a.ioh_wptr in
      let rp = lock hp b.ioh_wptr in
      (has_value lp && has_value rp && ptr_lt lp rp) || (not (has_value lp) && has_value rp)

  abbrev pub get_shared_ptr : Heap O → BasicIoInterface → Option ℕ
  get_shared_ptr hp io = lock hp io.ioh_wptr

  -- A reference to the socket of an io handler is given by the address of the handler.
  abbrev pub get_socket : Heap O → BasicIoInterface → Outcome ℕ
  get_socket hp io = socket_at (lock hp io.ioh_wptr)

module _ {O : Type 0} ⦃ioh : IoHandler O⦄ where
  unfoldable pub is_io_started : Heap O → BasicIoInterface → Outcome Bool × Heap O
  is_io_started hp io = call_method hp io.ioh_wptr (λ o. (ioh.is_io_started o, o))

  unfoldable pub get_output_queue_stats :
      Heap O → BasicIoInterface → Outcome OutputQueueStats × Heap O
  get_output_queue_stats hp io = call_method hp io.ioh_wptr (λ o. (ioh.get_output_queue_stats o, o))

  unfoldable pub stop_io : Heap O → BasicIoInterface → Outcome Bool × Heap O
  stop_io hp io = call_method hp io.ioh_wptr ioh.stop_io

-- `send(buf)`, and `send(buf, endp)` where an endpoint is given.
unfoldable pub send :
    {O B E : Type 0} ⦃ioh : IoHandler O⦄ ⦃s : Sender O B E⦄
    → Heap O
    → BasicIoInterface
    → B
    → Option E
    → Outcome (Unit {0}) × Heap O
send ⦃s = s⦄ hp io buf endp = call_method hp io.ioh_wptr (λ o. (tt, s.send o buf endp))

-- The overloads of `start_io`, for the handler that has them. `remote` is what the socket reports.
module _ {B E H : Type 0} where
  unfoldable pub start_io_framed :
      {F : Type 0}
      → Heap (TcpIo B E)
      → BasicIoInterface
      → ErrorCode × E
      → ℕ
      → H
      → F
      → Outcome Bool × Heap (TcpIo B E)
  start_io_framed hp io remote header_size mh mf =
      call_method hp io.ioh_wptr
        (λ o. let r = TcpIo.start_io o remote header_size mh mf in (r.0, r.1))

  -- `start_io(read_size, msg_handler)`, of a TCP handler and of a UDP one.
  unfoldable pub start_io_sized :
      Heap (TcpIo B E) → BasicIoInterface → ErrorCode × E → ℕ → H → Outcome Bool × Heap (TcpIo B E)
  start_io_sized hp io remote read_size mh =
      call_method hp io.ioh_wptr (λ o. let r = start_io_read o remote read_size mh in (r.0, r.1))

  unfoldable pub start_io_delimited :
      Heap (TcpIo B E)
      → BasicIoInterface
      → ErrorCode × E
      → List ℕ
      → H
      → Outcome Bool × Heap (TcpIo B E)
  start_io_delimited hp io remote delimiter mh =
      call_method hp io.ioh_wptr
        (λ o. let r = start_io_delimiter {F = NullFrame} o remote delimiter mh in (r.0, r.1))

module _ {B E C H : Type 0} where
  unfoldable pub start_io_sized_udp :
      Heap (UdpEntityIo B E C H)
      → BasicIoInterface
      → ℕ
      → H
      → Outcome Bool × Heap (UdpEntityIo B E C H)
  start_io_sized_udp hp io max_size mh =
      call_method hp io.ioh_wptr (λ o. UdpEntityIo.start_io o max_size mh)

  unfoldable pub start_io_with_endp :
      Heap (UdpEntityIo B E C H)
      → BasicIoInterface
      → E
      → ℕ
      → H
      → Outcome Bool × Heap (UdpEntityIo B E C H)
  start_io_with_endp hp io endp max_size mh =
      call_method hp io.ioh_wptr (λ o. start_io_endp o endp max_size mh)

  unfoldable pub start_io_send_only_with_endp :
      Heap (UdpEntityIo B E C H) → BasicIoInterface → E → Outcome Bool × Heap (UdpEntityIo B E C H)
  start_io_send_only_with_endp hp io endp =
      call_method hp io.ioh_wptr (λ o. start_io_send_only_endp o endp)

-- `start_io()`, of a TCP handler and of a UDP one.
unfoldable pub start_io_sending :
    {B E : Type 0}
    → Heap (TcpIo B E)
    → BasicIoInterface
    → ErrorCode × E
    → Outcome Bool × Heap (TcpIo B E)
start_io_sending hp io remote =
    call_method hp io.ioh_wptr (λ o. let r = TcpIo.start_io_send_only o remote in (r.0, r.1))

unfoldable pub start_io_sending_udp :
    {B E C H : Type 0}
    → Heap (UdpEntityIo B E C H)
    → BasicIoInterface
    → Outcome Bool × Heap (UdpEntityIo B E C H)
start_io_sending_udp hp io = call_method hp io.ioh_wptr UdpEntityIo.start_io_send_only
