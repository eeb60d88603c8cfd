-- ===== src/NetIp/Removing.antt =====
-- `remove` of net_ip/net_ip.hpp, just after the net entity was made.
use chops.Prelude.{
  ℕ, false≢true, sym, ◌≡◌, refl, ap, ◌∙◌, Bool, true, false, ◌||◌, Option, some, List, [], ◌∷◌,
  ◌++◌, ==_refl, EraseWhere, without, erase_where-without,
}
use chops.WeakPtr.{ptr_eq}
use chops.UdpEntityIo.{Endpoint}
use chops.NetIp.{
  NetIp, make_tcp_acceptor_endp, make_udp_unicast_endp, remove_acceptor, remove_udp_entity,
  run_posted,
}
use chops.NetIp.Stopping.{is_member}

neither : (a b : Bool) → (a || b) ≡ false → (a ≡ false) × (b ≡ false)
neither false b h = (refl, h)
neither true b h = absurd (false≢true (sym h))

without-absent :
    (ps : List (Option ℕ)) (q : ℕ) → is_member q ps ≡ false → without ptr_eq ps (some q) ≡ ps
without-absent [] q v = refl
without-absent (p ∷ ps) q v =
    let (other, rest) = neither (ptr_eq p (some q)) (is_member q ps) v in
    rw other (ap (λ l. p ∷ l) (without-absent ps q rest))

without-last :
    (ps : List (Option ℕ)) (q : ℕ)
    → is_member q ps ≡ false
    → without ptr_eq (ps ++ some q ∷ []) (some q) ≡ ps
without-last [] q v = rw (==_refl q) refl
without-last (p ∷ ps) q v =
    let (other, rest) = neither (ptr_eq p (some q)) (is_member q ps) v in
    rw other (ap (λ l. p ∷ l) (without-last ps q rest))

module _ {B E C H : Type 0} ⦃ep : Endpoint E⦄ ⦃er : EraseWhere (Option ℕ) ptr_eq⦄ where
  -- Where the next address is new: an acceptor that is made and then removed is no longer in the
  -- container, and the others are as before.
  pub make_tcp_acceptor_endp-remove_acceptor :
      (n : NetIp B E C H) (endp : E) (reuse_addr : Bool)
      → is_member n.acceptors.next_address n.acceptors.members ≡ false
      → let (acc, n') = make_tcp_acceptor_endp n endp reuse_addr in
        (remove_acceptor n' acc.eh_wptr).acceptors.members ≡ n.acceptors.members
  unfolding make_tcp_acceptor_endp remove_acceptor
  make_tcp_acceptor_endp-remove_acceptor n endp reuse_addr v =
      erase_where-without er (n.acceptors.members ++ some n.acceptors.next_address ∷ [])
        (some n.acceptors.next_address)
      ∙ without-last n.acceptors.members n.acceptors.next_address v

  -- Where the next address is new and nothing else is posted: a UDP entity that is made and removed
  -- before the executor runs what was posted is in the container afterwards.
  pub make_udp_unicast_endp-run_posted :
      (n : NetIp B E C H) (endp : E)
      → is_member n.udp_entities.next_address n.udp_entities.members ≡ false
      → n.posted ≡ []
      → let (udp, n') = make_udp_unicast_endp n endp in
        (run_posted (remove_udp_entity n' udp.eh_wptr)).udp_entities.members
        ≡ n.udp_entities.members ++ udp.eh_wptr ∷ []
  unfolding make_udp_unicast_endp run_posted remove_udp_entity
  make_udp_unicast_endp-run_posted n endp v e = rw e (
      ap (λ l. l ++ some n.udp_entities.next_address ∷ [])
        (erase_where-without er n.udp_entities.members (some n.udp_entities.next_address)
          ∙ without-absent n.udp_entities.members n.udp_entities.next_address v))
