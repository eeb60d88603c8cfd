-- ===== src/WeakPtr/Order.antt =====
-- Lemmas on the pointers that net_ip/basic_io_interface.hpp and net_ip/basic_net_entity.hpp compare.
use chops.Prelude.{
  ℕ, false≢true, sym, ◌≡◌, refl, ◌↔◌, Bool, true, false, not, ◌&&◌, ◌||◌, Option, none, some,
  ==_refl, arith,
}
use chops.IoCommon.{has_value}
use chops.WeakPtr.{Heap, put, ptr_eq, ptr_lt}

pub put-at : {O : Type 0} (hp : Heap O) (p : ℕ) (o : O) → put hp p o p ≡ some o
put-at hp p o = rw (==_refl p) refl

-- The two comparisons, of locked pointers.
abbrev pub locked_eq : Option ℕ → Option ℕ → Bool
locked_eq lp rp =
    (has_value lp && has_value rp && ptr_eq lp rp) || (not (has_value lp) && not (has_value rp))

abbrev pub locked_lt : Option ℕ → Option ℕ → Bool
locked_lt lp rp =
    (has_value lp && has_value rp && ptr_lt lp rp) || (not (has_value lp) && has_value rp)

-- A strict weak order, whose equivalence is the equality.
pub record IsOrder {T : Type 0} (lt eq : T → T → Bool) : Type 0 where
  pub irreflexive : (a : T) → lt a a ≡ false
  pub transitive : (a b c : T) → lt a b ≡ true → lt b c ≡ true → lt a c ≡ true
  pub incomparable : (a b : T) → ((lt a b ≡ false) × (lt b a ≡ false)) ↔ (eq a b ≡ true)

locked_lt-irreflexive : (a : Option ℕ) → locked_lt a a ≡ false
locked_lt-irreflexive none = refl
locked_lt-irreflexive (some p) = ground arith

locked_lt-transitive :
    (a b c : Option ℕ) → locked_lt a b ≡ true → locked_lt b c ≡ true → locked_lt a c ≡ true
locked_lt-transitive none none c h k = absurd (false≢true h)
locked_lt-transitive none (some q) none h k = absurd (false≢true k)
locked_lt-transitive none (some q) (some r) h k = refl
locked_lt-transitive (some p) none c h k = absurd (false≢true h)
locked_lt-transitive (some p) (some q) none h k = absurd (false≢true k)
locked_lt-transitive (some p) (some q) (some r) h k = ground arith

locked_lt-locked_eq :
    (a b : Option ℕ) → ((locked_lt a b ≡ false) × (locked_lt b a ≡ false)) ↔ (locked_eq a b ≡ true)
locked_lt-locked_eq none none = (λ h. refl, λ h. (refl, refl))
locked_lt-locked_eq none (some q) = (λ h. absurd (false≢true (sym h.0)), λ h. absurd (false≢true h))
locked_lt-locked_eq (some p) none = (λ h. absurd (false≢true (sym h.1)), λ h. absurd (false≢true h))
locked_lt-locked_eq (some p) (some q) = ground arith

pub locked-IsOrder : IsOrder locked_lt locked_eq
locked-IsOrder = record {
  irreflexive = locked_lt-irreflexive;
  transitive = locked_lt-transitive;
  incomparable = locked_lt-locked_eq;
}
