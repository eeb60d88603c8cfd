-- ===== src/WeakPtr.antt =====
-- The weak and shared pointers of the C++ library, as net_ip/basic_io_interface.hpp and
-- net_ip/basic_net_entity.hpp use them: addresses of objects on a heap, which can be gone.
use chops.Prelude.{ℕ, Bool, true, false, not, Option, none, some, ◌==◌, ltb, if◌then◌else◌}
use chops.NetIpError.{ErrorCode, make_error_code, weak_ptr_expired}
pub mod Order
pub mod Again

-- The object at an address, if it was not destroyed.
abbrev pub Heap : Type 0 → Type 0
Heap O = ℕ → Option O

-- A method returns, or throws a `net_ip_exception` with this code.
pub data Outcome (A : Type 0) : Type 0 where
  returns : A → Outcome A
  throws : ErrorCode → Outcome A

-- Comparisons of shared pointers; the null pointer comes first.
abbrev pub ptr_eq : Option ℕ → Option ℕ → Bool
ptr_eq none none = true
ptr_eq none (some q) = false
ptr_eq (some p) none = false
ptr_eq (some p) (some q) = p == q

abbrev pub ptr_lt : Option ℕ → Option ℕ → Bool
ptr_lt none none = false
ptr_lt none (some q) = true
ptr_lt (some p) none = false
ptr_lt (some p) (some q) = ltb p q

-- The address of the object whose socket `get_socket` refers to.
abbrev pub socket_at : Option ℕ → Outcome ℕ
socket_at none = throws (make_error_code weak_ptr_expired)
socket_at (some p) = returns p

module _ {O : Type 0} where
  -- `std::weak_ptr::lock`.
  abbrev pub lock_object : ℕ → Option O → Option ℕ
  lock_object p none = none
  lock_object p (some o) = some p

  abbrev pub lock : Heap O → Option ℕ → Option ℕ
  lock hp none = none
  lock hp (some p) = lock_object p (hp p)

  abbrev pub put : Heap O → ℕ → O → Heap O
  put hp p o q = if p == q then some o else hp q

  -- `if (auto p = wptr.lock()) { return p->method(); }`, and the exception where it does not lock.
  abbrev pub call_object : {A : Type 0} → Heap O → ℕ → Option O → (O → A × O) → Outcome A × Heap O
  call_object hp p none method = (throws (make_error_code weak_ptr_expired), hp)
  call_object hp p (some o) method = let (a, o') = method o in (returns a, put hp p o')

  abbrev pub call_method : {A : Type 0} → Heap O → Option ℕ → (O → A × O) → Outcome A × Heap O
  call_method hp none method = (throws (make_error_code weak_ptr_expired), hp)
  call_method hp (some p) method = call_object hp p (hp p) method
