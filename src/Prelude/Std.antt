-- ===== src/Prelude/Std.antt =====
-- What the program uses of the C++ standard library: an atomic flag, and a vector of bytes.
use Prim.Native.Nat.{ℕ, ◌+◌, ◌-◌, ◌≤◌}
use mathlib.Core.Path.{◌≡◌}
use mathlib.Core.Bool.{Bool, true, false}
use mathlib.Core.List.{List, ◌++◌, append-nil}
use native.Mathlib.Omega.{arith}
use chops.Prelude.Lists.{
  length, take, drop, replicate, take-append, drop-append, take-le, drop-le, length-append,
  length-replicate, length-take, length-drop,
}

-- `std::atomic_bool::compare_exchange_strong(expected, desired)` on the value `flag`: whether the
-- exchange was made, and the new value.
abbrev pub compare_exchange : (flag expected desired : Bool) → Bool × Bool
compare_exchange true true desired = (true, desired)
compare_exchange false false desired = (true, desired)
compare_exchange true false desired = (false, true)
compare_exchange false true desired = (false, false)

-- `std::vector<std::byte>::resize(n)`: cut off, or filled up with zero bytes.
unfoldable pub resize : ℕ → List ℕ → List ℕ
resize n v = take n v ++ replicate (n - length v) 0

-- The bytes of the buffer that begins at `off` and has `len` bytes.
unfoldable pub slice : ℕ → ℕ → List ℕ → List ℕ
slice off len v = take len (drop off v)

-- `std::vector::erase` of the first `n` elements.
abbrev pub erase_first : ℕ → List ℕ → List ℕ
erase_first n v = drop n v

-- The vector once `bytes` were read into it from `off` on.
unfoldable pub fill : ℕ → List ℕ → List ℕ → List ℕ
fill off bytes v = take off v ++ bytes ++ drop (off + length bytes) v

pub length-resize : (n : ℕ) (v : List ℕ) → length (resize n v) ≡ n
unfolding resize
length-resize n v = omega (
  arith,
  length-append (take n v) (replicate (n - length v) 0),
  length-take n v,
  length-replicate {A = ℕ} (n - length v) 0,
)

pub length-fill :
    (off : ℕ) (bytes v : List ℕ)
    → off + length bytes ≤ length v
    → length (fill off bytes v) ≡ length v
unfolding fill
length-fill off bytes v h = omega (
  arith,
  length-append (take off v ++ bytes) (drop (off + length bytes) v),
  length-append (take off v) bytes,
  length-take off v,
  length-drop (off + length bytes) v,
)

-- A vector that is filled whole holds what was read.
pub fill_whole : (bytes v : List ℕ) → length v ≡ length bytes → fill 0 bytes v ≡ bytes
unfolding fill
fill_whole bytes v e = rw (drop-le (0 + length bytes) v (omega arith)) (append-nil bytes)

-- Growing a vector and filling the new part appends to it.
pub fill-resize :
    (v bytes : List ℕ) (off n : ℕ)
    → off ≡ length v
    → n ≡ length v + length bytes
    → fill off bytes (resize n v) ≡ v ++ bytes
unfolding fill resize
fill-resize v bytes off n eo en =
    rw
      (
        take-le n v (omega arith),
        eo,
        take-append v (replicate (n - length v) 0),
        drop-le (length v + length bytes) (v ++ replicate (n - length v) 0) (
            omega (
              arith,
              length-append v (replicate (n - length v) 0),
              length-replicate {A = ℕ} (n - length v) 0,
            )),
      )
      (append-nil (v ++ bytes))

-- What was read stands in its buffer.
pub slice-append :
    (v bytes : List ℕ) (off len : ℕ)
    → off ≡ length v
    → len ≡ length bytes
    → slice off len (v ++ bytes) ≡ bytes
unfolding slice
slice-append v bytes off len eo el =
    rw (eo, drop-append v bytes, el) (take-le (length bytes) bytes (omega arith))
