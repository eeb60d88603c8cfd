-- ===== src/TcpAcceptor/Listing.antt =====
-- What the io state changes of net_ip/detail/tcp_acceptor.hpp tell of its io handlers.
use chops.Prelude.{
  ℕ, ◌≡◌, refl, ap, ◌∙◌, Bool, true, false, List, [], ◌∷◌, ◌++◌, ◌==◌, length, EraseWhere, without,
  some,
}
use chops.NetEntityCommon.{Callback, io_state_chg, error_call, bad_function_call}
use chops.OutputQueue.{SharedBuffer}
use chops.MsgFrame.{MsgHdlr, MsgFrame}
use chops.TcpAcceptor.{new_tcp_acceptor}
use chops.TcpAcceptor.Histories.{Event, run}
use chops.TcpAcceptor.Ready.{Kept}
use chops.TcpAcceptor.Induction.{run-Kept}

module _ {C : Type 0} where
  -- A list of io handlers after one call, as one who sees the calls follows it: one that starts
  -- is added, and one that ends is taken out. Then the same for many calls.
  abbrev pub listed_after : List ℕ → Callback C → List ℕ
  listed_after ps (io_state_chg f p n true) = ps ++ p ∷ []
  listed_after ps (io_state_chg f p n false) = without ◌==◌ ps p
  listed_after ps (error_call f p err) = ps
  listed_after ps bad_function_call = ps

  abbrev pub listed : List ℕ → List (Callback C) → List ℕ
  listed ps [] = ps
  listed ps (c ∷ cs) = listed (listed_after ps c) cs

  -- Whether a state change tells the length of the list after it, and whether each of many does.
  abbrev pub IsCounted : List ℕ → Callback C → Type 0
  IsCounted ps (io_state_chg f p n starting) =
      n ≡ length (listed_after ps (io_state_chg f p n starting))
  IsCounted ps (error_call f p err) = Unit {0}
  IsCounted ps bad_function_call = Unit {0}

  abbrev pub AreCounted : List ℕ → List (Callback C) → Type 0
  AreCounted ps [] = Unit {0}
  AreCounted ps (c ∷ cs) = IsCounted ps c × AreCounted (listed_after ps c) cs

  pub listed-snoc :
      (ps : List ℕ) (cs : List (Callback C)) (c : Callback C)
      → listed ps (cs ++ c ∷ []) ≡ listed_after (listed ps cs) c
  listed-snoc ps [] c = refl
  listed-snoc ps (x ∷ cs) c = listed-snoc (listed_after ps x) cs c

  AreCounted-snoc :
      (ps : List ℕ) (cs : List (Callback C)) (c : Callback C)
      → AreCounted ps cs
      → IsCounted (listed ps cs) c
      → AreCounted ps (cs ++ c ∷ [])
  AreCounted-snoc ps [] c v w = (w, tt)
  AreCounted-snoc ps (x ∷ cs) c v w = (v.0, AreCounted-snoc (listed_after ps x) cs c v.1 w)

-- The calls list the handlers of the acceptor, and count them.
abbrev AreListed : {C : Type 0} → List ℕ → ℕ → List (Callback C) → Type 0
AreListed hs n cs = (listed [] cs ≡ hs) × AreCounted [] cs

module _ {C : Type 0} where
  -- One more call, of which the list before it is known.
  AreListed-snoc :
      (hs : List ℕ) (n : ℕ) (cs : List (Callback C)) (c : Callback C)
      → AreListed hs n cs
      → IsCounted hs c
      → AreListed (listed_after hs c) n (cs ++ c ∷ [])
  AreListed-snoc hs n cs c v w = (
    listed-snoc [] cs c ∙ ap (λ ps. listed_after ps c) v.0,
    AreCounted-snoc [] cs c v.1 (rw v.0 w),
  )

  AreListed-Kept : Kept {C = C} AreListed
  AreListed-Kept = record {
    accepts = λ hs n cs f v.
        AreListed-snoc hs n cs (io_state_chg f n (length (hs ++ n ∷ [])) true) v refl;
    ends = λ hs n cs f g p err v.
        AreListed-snoc hs n (cs ++ error_call g (some p) err ∷ [])
          (io_state_chg f p (length (without ◌==◌ hs p)) false)
          (AreListed-snoc hs n cs (error_call g (some p) err) v tt) refl;
    errors = λ hs n cs g p err v. AreListed-snoc hs n cs (error_call g p err) v tt;
  }

module _ {B E C H F : Type 0} ⦃er : EraseWhere ℕ ◌==◌⦄ ⦃b : SharedBuffer B⦄ ⦃h : MsgHdlr H E⦄
    ⦃f : MsgFrame F⦄ where
  -- After any history of a new acceptor: the list that one keeps who adds the handler of each state
  -- change that starts, and takes out the handler of each that ends, is `m_io_handlers`, in order; and
  -- each state change told the length of this list after it.
  pub run-AreCounted :
      (default_endp endp : E) (reuse_addr : Bool) (es : List (Event B E C H F))
      → let a = run (new_tcp_acceptor default_endp endp reuse_addr) es in
        (listed [] a.calls ≡ a.io_handlers) × AreCounted [] a.calls
  run-AreCounted = run-Kept AreListed-Kept (refl, tt)
