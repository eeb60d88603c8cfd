-- ===== src/TcpIo/ReadUntil.antt =====
-- `async_read_until` of the networking library, with which net_ip/detail/tcp_io.hpp reads messages that
-- end with a delimiter. The bytes of the peer arrive in chunks of any size.
use chops.Prelude.{
  ℕ, ◌≤◌, ◌<◌, ◌≡◌, refl, ap, ◌∙◌, Option, none, some, List, [], ◌∷◌, ◌++◌, length, append_assoc,
  length-append, arith, ◌⊎◌, inl, inr, Option-cases,
}

-- The delimiter stands in `v` so that its last byte is byte number `n`.
pub record EndsAt (delim v : List ℕ) (n : ℕ) : Type 0 where
  pub before : List ℕ
  pub behind : List ℕ
  pub split : v ≡ (before ++ delim) ++ behind
  pub size : length (before ++ delim) ≡ n

-- The search in the buffer, by which the operation completes: it gives the number of bytes up to and
-- including the first delimiter, if there is one.
pub record ReadUntil : Type 0 where
  pub find : List ℕ → List ℕ → Option ℕ
  pub find-EndsAt : (delim v : List ℕ) (n : ℕ) → find delim v ≡ some n → EndsAt delim v n
  pub find-first : (delim v : List ℕ) (n k : ℕ) → find delim v ≡ some n → EndsAt delim v k → n ≤ k
  pub find-none : (delim v : List ℕ) (k : ℕ) → find delim v ≡ none → ¬ (EndsAt delim v k)

-- A delimiter is still there when more bytes follow.
EndsAt-append : (delim v w : List ℕ) (n : ℕ) → EndsAt delim v n → EndsAt delim (v ++ w) n
EndsAt-append delim v w n e = record {
  before = e.before;
  behind = e.behind ++ w;
  split = ap (λ l. l ++ w) e.split ∙ append_assoc (e.before ++ delim) e.behind w;
  size = e.size;
}

-- A prefix of a list that is not longer than another prefix.
pub prefix_le :
    (v w x y : List ℕ) → v ++ w ≡ x ++ y → length x ≤ length v → (z : List ℕ) × (v ≡ x ++ z)
prefix_le v w [] y e h = (v, refl)
prefix_le [] w (a ∷ x) y e h = absurd (omega arith)
prefix_le (b ∷ v) w (a ∷ x) y e h =
    let (z, p) = prefix_le v w x y (cc e) (omega arith) in (z, cc (e, p))

-- A delimiter that ends within the first bytes is there without the others.
EndsAt-prefix :
    (delim v w : List ℕ) (n : ℕ) → EndsAt delim (v ++ w) n → n ≤ length v → EndsAt delim v n
EndsAt-prefix delim v w n e h =
    let (z, p) = prefix_le v w (e.before ++ delim) e.behind e.split (omega (arith, e.size)) in
    record { before = e.before; behind = z; split = p; size = e.size }

pub EndsAt-le : (delim v : List ℕ) (n : ℕ) → EndsAt delim v n → n ≤ length v
EndsAt-le delim v n e =
    omega (arith, ap length e.split, length-append (e.before ++ delim) e.behind, e.size)

le_or_lt : (a b : ℕ) → (a ≤ b) ⊎ (b < a)
le_or_lt a b = ground arith

-- The first delimiter ends at byte `n`, and the delimiter is nowhere.
abbrev pub IsFirst : List ℕ → List ℕ → ℕ → Type 0
IsFirst delim v n = EndsAt delim v n × ((k : ℕ) → EndsAt delim v k → n ≤ k)

abbrev pub IsAbsent : List ℕ → List ℕ → Type 0
IsAbsent delim v = (k : ℕ) → ¬ (EndsAt delim v k)

-- More bytes do not move the first delimiter, and fewer bytes do not make one.
pub IsFirst-append : (delim v w : List ℕ) (n : ℕ) → IsFirst delim v n → IsFirst delim (v ++ w) n
IsFirst-append delim v w n f = (
  EndsAt-append delim v w n f.0,
  λ k e. elim (le_or_lt n k) [
    | inl h ↦ h
    | inr h ↦ f.1 k (EndsAt-prefix delim v w k e (omega (arith, EndsAt-le delim v n f.0)))
  ],
)

pub IsFirst-prefix :
    (delim v w : List ℕ) (n : ℕ) → IsFirst delim (v ++ w) n → n ≤ length v → IsFirst delim v n
IsFirst-prefix delim v w n f h =
    (EndsAt-prefix delim v w n f.0 h, λ k e. f.1 k (EndsAt-append delim v w k e))

pub IsAbsent-prefix : (delim v w : List ℕ) → IsAbsent delim (v ++ w) → IsAbsent delim v
IsAbsent-prefix delim v w a k e = a k (EndsAt-append delim v w k e)

-- The operation completes at once where the delimiter is found.
abbrev pub if_found :
    Option ℕ
    → List (List ℕ)
    → List ℕ
    → Option ℕ × List ℕ × List (List ℕ)
    → Option ℕ × List ℕ × List (List ℕ)
if_found none cs v more = more
if_found (some n) cs v more = (some n, v, cs)

le_antisymm : {a b : ℕ} → a ≤ b → b ≤ a → a ≡ b
le_antisymm p q = omega arith

module _ (r : ReadUntil) where
  pub find-IsFirst : (delim v : List ℕ) (n : ℕ) → r.find delim v ≡ some n → IsFirst delim v n
  find-IsFirst delim v n e = (r.find-EndsAt delim v n e, λ k. r.find-first delim v n k e)

  pub IsFirst-find : (delim v : List ℕ) (n : ℕ) → IsFirst delim v n → r.find delim v ≡ some n
  IsFirst-find delim v n f = elim (Option-cases (r.find delim v)) [
    | inl e ↦ absurd (r.find-none delim v n e f.0)
    | inr (k, e) ↦
        e
        ∙ ap some (le_antisymm (r.find-first delim v k n e f.0) (f.1 k (r.find-EndsAt delim v k e)))
  ]

  pub IsAbsent-find : (delim v : List ℕ) → IsAbsent delim v → r.find delim v ≡ none
  IsAbsent-find delim v a = elim (Option-cases (r.find delim v)) [
    | inl e ↦ e
    | inr (k, e) ↦ absurd (a k (r.find-EndsAt delim v k e))
  ]

  -- The reads of one `async_read_until`: chunks are appended to the buffer until the delimiter is in
  -- it. The result is the number of bytes, `none` at the end, the buffer, and the chunks that are left.
  unfoldable pub read_until : List ℕ → List ℕ → List (List ℕ) → Option ℕ × List ℕ × List (List ℕ)
  read_until delim v [] = (r.find delim v, v, [])
  read_until delim v (c ∷ cs) =
      let more = read_until delim (v ++ c) cs in if_found (r.find delim v) (c ∷ cs) v more
