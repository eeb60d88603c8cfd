-- ===== src/TcpIo/Search.antt =====
-- A search for a delimiter, as TcpIo/ReadUntil.antt asks for it.
use chops.Prelude.{
  ℕ, suc, ◌<◌, ◌-◌, ◌≡◌, refl, sym, ap, ◌∙◌, subst, Bool, true, false, false≢true, ◌&&◌, Option,
  none, some, List, [], ◌∷◌, ◌++◌, length, length-append, arith, ◌==◌, ==_iff, ==_refl, and-both,
}
use chops.TcpIo.ReadUntil.{ReadUntil, EndsAt, IsFirst, IsAbsent}

abbrev starts_with : List ℕ → List ℕ → Bool
starts_with [] v = true
starts_with (a ∷ d) [] = false
starts_with (a ∷ d) (b ∷ v) = (a == b) && starts_with d v

abbrev next : Option ℕ → Option ℕ
next none = none
next (some n) = some (suc n)

abbrev found_here : Bool → ℕ → Option ℕ → Option ℕ
found_here true n later = some n
found_here false n later = later

abbrev search : List ℕ → List ℕ → Option ℕ
search d [] = found_here (starts_with d []) (length d) none
search d (b ∷ v) = found_here (starts_with d (b ∷ v)) (length d) (next (search d v))

starts_with-append : (d z : List ℕ) → starts_with d (d ++ z) ≡ true
starts_with-append [] z = refl
starts_with-append (a ∷ d) z = rw (==_refl a) (starts_with-append d z)

starts_with→append : (d v : List ℕ) → starts_with d v ≡ true → (z : List ℕ) × (v ≡ d ++ z)
starts_with→append [] v h = (v, refl)
starts_with→append (a ∷ d) [] h = absurd (false≢true h)
starts_with→append (a ∷ d) (b ∷ v) h =
    let (e, t) = and-both (a == b) (starts_with d v) h in
    let (z, p) = starts_with→append d v t in (z, cc ((==_iff a b).0 e, p))

starts-EndsAt : (d v : List ℕ) → starts_with d v ≡ true → EndsAt d v (length d)
starts-EndsAt d v h =
    let (z, p) = starts_with→append d v h in
    record { before = []; behind = z; split = p; size = refl }

next-EndsAt : (d : List ℕ) (b : ℕ) (v : List ℕ) (n : ℕ) → EndsAt d v n → EndsAt d (b ∷ v) (suc n)
next-EndsAt d b v n e = record {
  before = b ∷ e.before;
  behind = e.behind;
  split = ap (λ l. b ∷ l) e.split;
  size = ap suc e.size;
}

-- A delimiter that is not at the beginning is behind the first byte.
EndsAt-next :
    (d : List ℕ) (b : ℕ) (v before behind : List ℕ)
    → b ∷ v ≡ (before ++ d) ++ behind
    → starts_with d (b ∷ v) ≡ false
    → EndsAt d v (length (before ++ d) - 1) × (0 < length (before ++ d))
EndsAt-next d b v [] behind e not_here =
    absurd (false≢true (sym not_here ∙ ap (starts_with d) e ∙ starts_with-append d behind))
EndsAt-next d b v (c ∷ before) behind e not_here =
    (record { before = before; behind = behind; split = cc e; size = omega arith }, omega arith)

-- What the result of a search says.
abbrev Says : List ℕ → List ℕ → Option ℕ → Type 0
Says d v none = IsAbsent d v
Says d v (some n) = IsFirst d v n

search_nil :
    (d : List ℕ) (flag : Bool)
    → starts_with d [] ≡ flag
    → Says d [] (found_here flag (length d) none)
search_nil d true e = (starts-EndsAt d [] e, λ k a. omega (arith, length-append a.before d, a.size))
search_nil [] false e = absurd (false≢true (sym e))
search_nil (x ∷ d) false e = λ k a. omega (
  arith,
  ap length a.split,
  length-append (a.before ++ x ∷ d) a.behind,
  length-append a.before (x ∷ d),
)

search_cons :
    (d : List ℕ) (b : ℕ) (v : List ℕ) (flag : Bool) (later : Option ℕ)
    → starts_with d (b ∷ v) ≡ flag
    → Says d v later
    → Says d (b ∷ v) (found_here flag (length d) (next later))
search_cons d b v true later e says =
    (starts-EndsAt d (b ∷ v) e, λ k a. omega (arith, length-append a.before d, a.size))
search_cons d b v false none e says =
    λ k a. says _ (EndsAt-next d b v a.before a.behind a.split e).0
search_cons d b v false (some n) e says = (
  next-EndsAt d b v n says.0,
  λ k a.
      let (at, pos) = EndsAt-next d b v a.before a.behind a.split e in
      let le = says.1 _ at in let size = a.size in omega (arith, le, size, pos),
)

pub search-Says : (d v : List ℕ) → Says d v (search d v)
search-Says d [] = search_nil d _ refl
search-Says d (b ∷ v) = search_cons d b v _ (search d v) refl (search-Says d v)

abbrev pub searching : ReadUntil
searching = record {
  find = search;
  find-EndsAt = λ d v n e. (subst (Says d v) e (search-Says d v)).0;
  find-first = λ d v n k e. (subst (Says d v) e (search-Says d v)).1 k;
  find-none = λ d v k e. subst (Says d v) e (search-Says d v) k;
}
