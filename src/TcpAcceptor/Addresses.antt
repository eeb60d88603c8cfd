-- ===== src/TcpAcceptor/Addresses.antt =====
-- Lists of addresses without repetitions, as `m_io_handlers` of net_ip/detail/tcp_acceptor.hpp.
use chops.Prelude.{
  ℕ, suc, ◌<◌, ◌≡◌, ◌≢◌, refl, sym, List, [], ◌∷◌, ◌++◌, ◌==◌, without, arith, Bool, false, ◌||◌,
  Bool-cases, inl, inr, ==_iff,
}

-- An address that is not in a list, and a list without repetitions.
abbrev pub NotIn : ℕ → List ℕ → Type 0
NotIn p [] = Unit {0}
NotIn p (q ∷ qs) = (p ≢ q) × NotIn p qs

abbrev pub Distinct : List ℕ → Type 0
Distinct [] = Unit {0}
Distinct (p ∷ ps) = NotIn p ps × Distinct ps

pub without-NotIn : (p : ℕ) (ps : List ℕ) → NotIn p ps → without ◌==◌ ps p ≡ ps
without-NotIn p [] h = refl
without-NotIn p (q ∷ qs) h = ground (arith, without-NotIn p qs h.1)

-- Erasing an address that stands once in a list.
pub without-middle :
    (xs : List ℕ) (p : ℕ) (ys : List ℕ)
    → NotIn p xs
    → NotIn p ys
    → without ◌==◌ (xs ++ p ∷ ys) p ≡ xs ++ ys
without-middle [] p ys hx hy = ground (arith, without-NotIn p ys hy)
without-middle (x ∷ xs) p ys hx hy = ground (arith, without-middle xs p ys hx.1 hy)

-- No address of the first list stands in the second one.
abbrev pub AreApart : List ℕ → List ℕ → Type 0
AreApart [] ys = Unit {0}
AreApart (x ∷ xs) ys = NotIn x ys × AreApart xs ys

pub AreApart-nil : (xs : List ℕ) → AreApart xs []
AreApart-nil [] = tt
AreApart-nil (x ∷ xs) = (tt, AreApart-nil xs)

NotIn-snoc : (x : ℕ) (ys : List ℕ) (p : ℕ) → NotIn x ys → x ≢ p → NotIn x (ys ++ p ∷ [])
NotIn-snoc x [] p h ne = (ne, tt)
NotIn-snoc x (y ∷ ys) p h ne = (h.0, NotIn-snoc x ys p h.1 ne)

pub AreApart-snoc :
    (xs ys : List ℕ) (p : ℕ) → AreApart xs ys → NotIn p xs → AreApart xs (ys ++ p ∷ [])
AreApart-snoc [] ys p h n = tt
AreApart-snoc (x ∷ xs) ys p h n =
    (NotIn-snoc x ys p h.0 (λ e. n.0 (sym e)), AreApart-snoc xs ys p h.1 n.1)

-- Erasing keeps a list without repetitions.
NotIn-without : (x : ℕ) (ps : List ℕ) (p : ℕ) → NotIn x ps → NotIn x (without ◌==◌ ps p)
NotIn-without x [] p h = tt
NotIn-without x (q ∷ qs) p h = ground (arith, NotIn-without x qs p h.1)

pub without-Distinct : (ps : List ℕ) (p : ℕ) → Distinct ps → Distinct (without ◌==◌ ps p)
without-Distinct [] p h = tt
without-Distinct (q ∷ qs) p h = ground (arith, without-Distinct qs p h.1, NotIn-without q qs p h.0)

-- All addresses of a list are below a bound.
abbrev pub Below : ℕ → List ℕ → Type 0
Below n [] = Unit {0}
Below n (p ∷ ps) = (p < n) × Below n ps

pub without-Below : (n : ℕ) (ps : List ℕ) (p : ℕ) → Below n ps → Below n (without ◌==◌ ps p)
without-Below n [] p h = tt
without-Below n (q ∷ qs) p h = ground (arith, without-Below n qs p h.1)

-- The next address is a new one.
pub Below-snoc : (n : ℕ) (ps : List ℕ) → Below n ps → Below (suc n) (ps ++ n ∷ [])
Below-snoc n [] h = (omega arith, tt)
Below-snoc n (p ∷ ps) h = (omega arith, Below-snoc n ps h.1)

pub Distinct-snoc : (n : ℕ) (ps : List ℕ) → Below n ps → Distinct ps → Distinct (ps ++ n ∷ [])
Distinct-snoc n [] b d = (tt, tt)
Distinct-snoc n (p ∷ ps) b d = (NotIn-snoc p ps n d.0 (omega arith), Distinct-snoc n ps b.1 d.1)

-- Whether an address is in a list.
abbrev pub is_one_of : ℕ → List ℕ → Bool
is_one_of q [] = false
is_one_of q (p ∷ ps) = (p == q) || is_one_of q ps

pub is_one_of-NotIn : (q : ℕ) (ps : List ℕ) → NotIn q ps → is_one_of q ps ≡ false
is_one_of-NotIn q [] n = refl
is_one_of-NotIn q (p ∷ ps) n = elim (Bool-cases (p == q)) [
  | inl same ↦ absurd (n.0 (sym ((==_iff p q).0 same)))
  | inr other ↦ rw other (is_one_of-NotIn q ps n.1)
]
