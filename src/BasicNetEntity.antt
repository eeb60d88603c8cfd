-- ===== src/BasicNetEntity.antt =====
-- net_ip/basic_net_entity.hpp: the interface through which an application uses a net entity.
use chops.Prelude.{ℕ, ◌≡◌, Bool, true, false, not, ◌&&◌, ◌||◌, Option, none}
use chops.IoCommon.{has_value}
use chops.WeakPtr.{Heap, Outcome, ptr_eq, ptr_lt, lock, call_method, socket_at}
pub mod Entities
pub mod Again
pub mod Order
mod Examples

-- What the interface asks of a net entity, and what its clients rely on. `S` is what `start` is given:
-- the callbacks, and what the networking library reports.
pub record NetEntity (O S : Type 0) : Type 0 where
  pub is_started : O → Bool
  pub start : O → S → Bool × O
  pub stop : O → Bool × O
  pub start-refused : (o : O) (s : S) → is_started o ≡ true → start o s ≡ (false, o)
  pub stop-result : (o : O) → (stop o).0 ≡ is_started o
  pub stop-off : (o : O) → is_started (stop o).1 ≡ false

pub record BasicNetEntity : Type 0 where
  pub eh_wptr : Option ℕ

-- The default constructor.
abbrev pub new_net_entity : BasicNetEntity
new_net_entity = record { eh_wptr = none }

module _ {O : Type 0} where
  abbrev pub is_valid : Heap O → BasicNetEntity → Bool
  is_valid hp e = has_value (lock hp e.eh_wptr)

  -- `operator==` and `operator<`.
  abbrev pub equals : Heap O → BasicNetEntity → BasicNetEntity → Bool
  equals hp a b =
      let lp = lock hp a.eh_wptr in
      let rp = lock hp b.eh_wptr in
      (has_value lp && has_value rp && ptr_eq lp rp) || (not (has_value lp) && not (has_value rp))

  abbrev pub less : Heap O → BasicNetEntity → BasicNetEntity → Bool
  less hp a b =
      let lp = lock hp a.eh_wptr in
      let rp = lock hp b.eh_wptr in
      (has_value lp && has_value rp && ptr_lt lp rp) || (not (has_value lp) && has_value rp)

  abbrev pub get_shared_ptr : Heap O → BasicNetEntity → Option ℕ
  get_shared_ptr hp e = lock hp e.eh_wptr

  -- A reference to the socket of a net entity is given by the address of the entity.
  abbrev pub get_socket : Heap O → BasicNetEntity → Outcome ℕ
  get_socket hp e = socket_at (lock hp e.eh_wptr)

module _ {O S : Type 0} (entity : NetEntity O S) where
  unfoldable pub is_started : Heap O → BasicNetEntity → Outcome Bool × Heap O
  is_started hp e = call_method hp e.eh_wptr (λ o. (entity.is_started o, o))

  unfoldable pub start : Heap O → BasicNetEntity → S → Outcome Bool × Heap O
  start hp e s = call_method hp e.eh_wptr (λ o. entity.start o s)

  unfoldable pub stop : Heap O → BasicNetEntity → Outcome Bool × Heap O
  stop hp e = call_method hp e.eh_wptr entity.stop
