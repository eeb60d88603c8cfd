-- ===== src/SendToAll.antt =====
-- net_ip/component/send_to_all.hpp: a collection of io interfaces, and sending to all of them. The
-- mutex makes each method one step; `hp` holds the io handlers.
use chops.Prelude.{
  ℕ, add_size, Bool, true, false, Option, none, some, List, [], ◌∷◌, ◌++◌, length, take, EraseWhere,
  if◌then◌else◌,
}
use chops.NetIpError.{ErrorCode}
use chops.OutputQueue.{OutputQueueStats, SharedBuffer}
use chops.WeakPtr.{Heap, Outcome, returns, throws}
use chops.BasicIoInterface.{BasicIoInterface, IoHandler, Sender, equals, get_output_queue_stats}
use chops.BasicIoInterface
use chops.BasicIoInterface.Buffers.{MakeBuffer}
pub mod Sending
pub mod Totals
pub mod Unordered
pub mod Members
pub mod Following
pub mod Reaching
mod Examples

pub record SendToAll : Type 0 where
  pub io_intfs : List BasicIoInterface

abbrev pub add_io_interface : SendToAll → BasicIoInterface → SendToAll
add_io_interface s io = record s { io_intfs = s.io_intfs ++ io ∷ [] }

abbrev pub size : SendToAll → ℕ
size s = length s.io_intfs

module _ {O : Type 0} (hp : Heap O) ⦃er : EraseWhere BasicIoInterface (equals hp)⦄ where
  abbrev pub remove_io_interface : SendToAll → BasicIoInterface → SendToAll
  remove_io_interface s io = record s { io_intfs = er.erase_where s.io_intfs io }

  -- `operator()`, the function object for the io state change of `start`.
  abbrev pub state_change : SendToAll → BasicIoInterface → ℕ → Bool → SendToAll
  state_change s io num starting =
      if starting then add_io_interface s io else remove_io_interface s io

-- The statements after a call, which an exception skips.
abbrev pub then_do :
    {O : Type 0}
    → Outcome (Unit {0}) × Heap O
    → (Heap O → Outcome (Unit {0}) × Heap O)
    → Outcome (Unit {0}) × Heap O
then_do (returns _, hp) rest = rest hp
then_do (throws err, hp) rest = (throws err, hp)

module _ {O B E : Type 0} ⦃ioh : IoHandler O⦄ (sender : Sender O B E) where
  -- The loop of `send`.
  unfoldable pub send_each : Heap O → List BasicIoInterface → B → Outcome (Unit {0}) × Heap O
  send_each hp [] buf = (returns tt, hp)
  send_each hp (io ∷ ios) buf =
      then_do (BasicIoInterface.send ⦃s = sender⦄ hp io buf none) (λ hp'. send_each hp' ios buf)

  unfoldable pub send : Heap O → SendToAll → B → Outcome (Unit {0}) × Heap O
  unfolding send_each
  send hp s buf = send_each hp s.io_intfs buf

  -- The overloads that make a buffer; `mem` is the memory from the pointer on.
  unfoldable pub send_bytes :
      {M : Type 0} ⦃b : SharedBuffer B⦄
      → MakeBuffer B M
      → Heap O
      → SendToAll
      → List ℕ
      → ℕ
      → Outcome (Unit {0}) × Heap O
  unfolding send
  send_bytes m hp s mem sz = send hp s (m.copy_bytes (take sz mem))

  unfoldable pub send_mutable :
      {M : Type 0} ⦃b : SharedBuffer B⦄
      → MakeBuffer B M
      → Heap O
      → SendToAll
      → M
      → Outcome (Unit {0}) × Heap O
  unfolding send
  send_mutable m hp s buf = send hp s (m.from_mutable buf)

-- A call in a `noexcept` method: an exception ends the program, and `none` stands for that.
abbrev pub or_terminate : {A R : Type 0} → Outcome A → (A → Option R) → Option R
or_terminate (returns a) rest = rest a
or_terminate (throws _) rest = none

module _ {O : Type 0} ⦃ioh : IoHandler O⦄ where
  -- The loop of `get_total_output_queue_stats`.
  unfoldable pub add_stats :
      Heap O → List BasicIoInterface → OutputQueueStats → Option OutputQueueStats
  unfolding get_output_queue_stats
  add_stats hp [] tot = some tot
  add_stats hp (io ∷ ios) tot = or_terminate (get_output_queue_stats hp io).0 (λ qs.
      add_stats hp ios (record {
        output_queue_size = add_size tot.output_queue_size qs.output_queue_size;
        bytes_in_output_queue = add_size tot.bytes_in_output_queue qs.bytes_in_output_queue;
      }))

  unfoldable pub get_total_output_queue_stats : Heap O → SendToAll → Option OutputQueueStats
  unfolding add_stats
  get_total_output_queue_stats hp s =
      add_stats hp s.io_intfs (record { output_queue_size = 0; bytes_in_output_queue = 0 })
