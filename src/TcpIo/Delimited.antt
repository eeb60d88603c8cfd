-- ===== src/TcpIo/Delimited.antt =====
-- Messages that end with a delimiter on a connection of net_ip/detail/tcp_io.hpp: the reads of
-- `start_read_until` and `handle_read_until`, for bytes that arrive in chunks of any size.
use chops.Prelude.{
  ℕ, ◌≡◌, refl, sym, ap, ◌∙◌, subst, none, some, List, [], ◌∷◌, ◌++◌, length, append_assoc,
  append-nil, arith, inl, inr, Option-cases,
}
use chops.TcpIo.Sessions.{concat}
use chops.TcpIo.ReadUntil.{
  ReadUntil, IsFirst, IsAbsent, IsFirst-append, IsAbsent-prefix, find-IsFirst, IsFirst-find,
  IsAbsent-find, read_until, if_found,
}

-- The bytes are messages that end with their only delimiter, and a rest without one.
abbrev pub AreDelimited : List ℕ → List (List ℕ) → Type 0
AreDelimited delim [] = Unit {0}
AreDelimited delim (m ∷ ms) = IsFirst delim m (length m) × AreDelimited delim ms

module _ (r : ReadUntil) where
  -- What `async_read_until` leaves when the delimiter comes.
  pub record Reads (delim v : List ℕ) (cs : List (List ℕ)) (n : ℕ) : Type 0 where
    pub buffer : List ℕ
    pub chunks : List (List ℕ)
    pub result : read_until r delim v cs ≡ (some n, buffer, chunks)
    pub same_bytes : buffer ++ concat chunks ≡ v ++ concat cs
    pub found : IsFirst delim buffer n

  pub IsFirst-unique : (delim v : List ℕ) (n k : ℕ) → IsFirst delim v n → IsFirst delim v k → n ≡ k
  IsFirst-unique delim v n k f g = let p = f.1 k g.0 in let q = g.1 n f.0 in omega (arith, p, q)

  pub read_until-Reads :
      (delim v : List ℕ) (cs : List (List ℕ)) (n : ℕ)
      → IsFirst delim (v ++ concat cs) n
      → Reads delim v cs n
  unfolding read_until
  read_until-Reads delim v [] n f =
      let g = subst (λ l. IsFirst delim l n) (append-nil v) f in
      record {
        buffer = v;
        chunks = [];
        result = rw (IsFirst-find r delim v n g);
        same_bytes = refl;
        found = g;
      }
  read_until-Reads delim v (c ∷ cs) n f = elim (Option-cases (r.find delim v)) [
    | inl e ↦
        let later =
          read_until-Reads delim (v ++ c) cs n
            (subst (λ l. IsFirst delim l n) (sym (append_assoc v c (concat cs))) f) in
        record {
          buffer = later.buffer;
          chunks = later.chunks;
          result =
              ap (λ o. if_found o (c ∷ cs) v (read_until r delim (v ++ c) cs)) e ∙ later.result;
          same_bytes = later.same_bytes ∙ append_assoc v c (concat cs);
          found = later.found;
        }
    | inr (k, e) ↦
        let g = find-IsFirst r delim v k e in
        let same = IsFirst-unique delim _ k n (IsFirst-append delim v (c ++ concat cs) k g) f in
        record {
          buffer = v;
          chunks = c ∷ cs;
          result =
              ap (λ o. if_found o (c ∷ cs) v (read_until r delim (v ++ c) cs)) (e ∙ ap some same);
          same_bytes = refl;
          found = subst (λ j. IsFirst delim v j) same g;
        }
  ]

  pub read_until-IsAbsent :
      (delim v : List ℕ) (cs : List (List ℕ))
      → IsAbsent delim (v ++ concat cs)
      → read_until r delim v cs ≡ (none, v ++ concat cs, [])
  unfolding read_until
  read_until-IsAbsent delim v [] a =
      rw (append-nil, IsAbsent-find r delim v (subst (IsAbsent delim) (append-nil v) a))
  read_until-IsAbsent delim v (c ∷ cs) a =
      rw (IsAbsent-find r delim v (IsAbsent-prefix delim v (c ++ concat cs) a)) (
        read_until-IsAbsent delim (v ++ c) cs
          (subst (IsAbsent delim) (sym (append_assoc v c (concat cs))) a)
        ∙ ap (λ l. (none, l, [])) (append_assoc v c (concat cs)))
