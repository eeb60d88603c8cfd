-- ===== src/TcpAcceptor/Closing.antt =====
-- The io handlers of net_ip/detail/tcp_acceptor.hpp that `stop` closes.
use chops.Prelude.{
  ℕ, inl, inr, Bool-cases, ◌≡◌, ◌≢◌, refl, sym, ap, ◌∙◌, Bool, true, false, List, ◌∷◌, ◌==◌,
  if◌then◌else◌, ==_iff, ◌&&◌, subst, false≢true,
}
use chops.TcpIo.{TcpIo}
use chops.TcpAcceptor.Addresses.{NotIn, is_one_of, is_one_of-NotIn}

-- An io handler that was closed: its io is not started, and its socket is not open; what is in its queue
-- stays there.
abbrev pub closed : {B E : Type 0} → TcpIo B E → TcpIo B E
closed io = record io { is_open = false; io_common = record io.io_common { io_started = false } }

-- What is at an address once the live handlers of a list were closed.
abbrev pub close_live : {B E : Type 0} → (ℕ → Bool) → List ℕ → ℕ → TcpIo B E → TcpIo B E
close_live live ps q io = if is_one_of q ps && live q then closed io else io

and_false : (x : Bool) → (x && false) ≡ false
and_false true = refl
and_false false = refl

module _ {B E : Type 0} (h h1 : ℕ → TcpIo B E) (live : ℕ → Bool) (p : ℕ) (ps : List ℕ) where
  -- The first address of the list is that of a live handler, which is closed.
  pub close_live-on :
      (q : ℕ)
      → live p ≡ true
      → NotIn p ps
      → h1 p ≡ closed (h p)
      → ((r : ℕ) → r ≢ p → h1 r ≡ h r)
      → close_live live ps q (h1 q) ≡ close_live live (p ∷ ps) q (h q)
  close_live-on q on n e others = elim (Bool-cases (p == q)) [
    | inl same ↦
        let pq = (==_iff p q).0 same in
        rw (same, is_one_of-NotIn q ps (subst (λ r. NotIn r ps) pq n), ap live (sym pq) ∙ on)
          (subst (λ r. h1 r ≡ closed (h r)) pq e)
    | inr other ↦ rw (other, others q (λ qp. false≢true (sym other ∙ (==_iff p q).1 (sym qp)))) refl
  ]

  -- It is that of one that is not live.
  pub close_live-off :
      (q : ℕ)
      → live p ≡ false
      → h1 q ≡ h q
      → close_live live ps q (h1 q) ≡ close_live live (p ∷ ps) q (h q)
  close_live-off q off e = elim (Bool-cases (p == q)) [
    | inl same ↦
        let off' = ap live (sym ((==_iff p q).0 same)) ∙ off in
        rw (e, same, off', and_false (is_one_of q ps)) refl
    | inr other ↦ rw (e, other) refl
  ]
