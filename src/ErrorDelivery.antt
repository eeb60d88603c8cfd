-- ===== src/ErrorDelivery.antt =====
-- net_ip/component/error_delivery.hpp: error functions for `start`, and the sink that writes the errors
-- of a wait queue into a stream. `T` is the time point of the steady clock.
use Prim.Native.String.{String}
use chops.Prelude.{ℕ, zero, suc, Option, none, some, List, [], ◌∷◌, ◌++◌, add_size}
use chops.NetIpError.{ErrorCode, ErrorCategory, net_ip_err_category, other, message}
use chops.WeakPtr.{Heap}
use chops.BasicIoInterface.{BasicIoInterface, get_shared_ptr}
use chops.WaitQueue.{WaitQueue, Write, write_all, first_writes, next_writes}
pub mod Sinking
pub mod Telling
mod Examples

-- The constructor is given the time by its caller here, which it takes of the clock itself.
pub record ErrorData (T : Type 0) : Type 0 where
  pub time_p : T
  pub io_intf_ptr : Option ℕ
  pub err : ErrorCode

abbrev pub new_error_data : {T : Type 0} → T → Option ℕ → ErrorCode → ErrorData T
new_error_data now iop e = record { time_p = now; io_intf_ptr = iop; err = e }

-- `empty_error_func`, and the two for TCP and UDP: they do nothing of what they could do to a state.
abbrev pub empty_error_func : {S : Type 0} → BasicIoInterface → ErrorCode → S → S
empty_error_func io err s = s

abbrev pub tcp_empty_error_func : {S : Type 0} → BasicIoInterface → ErrorCode → S → S
tcp_empty_error_func io err s = s

abbrev pub udp_empty_error_func : {S : Type 0} → BasicIoInterface → ErrorCode → S → S
udp_empty_error_func io err s = s

-- The call of the function object that `make_error_func_with_wait_queue` returns; `now` is the time of
-- the call, and the result of `emplace_push` is not looked at.
unfoldable pub make_error_func_with_wait_queue :
    {Q T O : Type 0} ⦃w : WaitQueue Q (ErrorData T)⦄
    → Heap O
    → T
    → Q
    → BasicIoInterface
    → ErrorCode
    → Q
make_error_func_with_wait_queue ⦃w⦄ hp now wq io e =
    (w.emplace_push wq (new_error_data now (get_shared_ptr hp io) e)).1

-- What is put into the stream by `<<`, and the flush.
pub data Output : Type 0 where
  text : String → Output
  number : ℕ → Output
  pointer : Option ℕ → Output
  error_code : ErrorCode → Output
  flush : Output

-- What the sink uses of the library: the milliseconds of a time point, and the messages of the
-- categories other than the one of net_ip.
pub record Formats (T : Type 0) : Type 0 where
  pub to_millis : T → ℕ
  pub other_message : ℕ → String

-- `error_code::message`.
abbrev pub message_in : (ℕ → String) → ErrorCategory → ℕ → String
message_in other_message net_ip_err_category val = message val
message_in other_message other val = other_message val

abbrev pub flushed : Option (ℕ × List Output) → Option (ℕ × List Output)
flushed none = none
flushed (some (cnt, os)) = some (cnt, os ++ flush ∷ [])

module _ {T : Type 0} ⦃f : Formats T⦄ where
  abbrev pub error_line : ErrorData T → List Output
  error_line e =
      text "["
      ∷ number (f.to_millis e.time_p)
      ∷ text "] io_addr: "
      ∷ pointer e.io_intf_ptr
      ∷ text " err: "
      ∷ error_code e.err
      ∷ text ", "
      ∷ text (message_in f.other_message e.err.category e.err.value)
      ∷ text "\n"
      ∷ []

module _ {Q T : Type 0} ⦃w : WaitQueue Q (ErrorData T)⦄ ⦃f : Formats T⦄ where
  -- The loop of the sink. Before each call of `wait_and_pop`, and each time it has waited, other threads
  -- write to the queue: `ws` are these writes, none when the list has ended. The result is the count
  -- and the stream; it is none where the fuel runs out.
  unfoldable pub sink_loop :
      ℕ → List (List (Write (ErrorData T))) → Q → List Output → ℕ → Option (ℕ × List Output)
  sink_loop zero ws wq os cnt = none
  sink_loop (suc n) ws wq os cnt = elim (w.wait_and_pop (write_all wq (first_writes ws))) [
    | none ↦ sink_loop n (next_writes ws) (write_all wq (first_writes ws)) os cnt
    | some (none, wq') ↦ some (cnt, os)
    | some (some elem, wq') ↦
        sink_loop n (next_writes ws) wq' (os ++ error_line elem) (add_size cnt 1)
  ]

  unfoldable pub ostream_error_sink_with_wait_queue :
      ℕ → List (List (Write (ErrorData T))) → Q → List Output → Option (ℕ × List Output)
  unfolding sink_loop
  ostream_error_sink_with_wait_queue fuel ws wq os = flushed (sink_loop fuel ws wq os 0)
