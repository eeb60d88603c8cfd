-- ===== src/WeakPtr/Again.antt =====
-- A method that stops an object, called twice through a weak pointer.
use chops.Prelude.{ℕ, ◌≡◌, refl, ap, ◌∙◌, Bool, false, Option, none, some}
use chops.IoCommon.{has_value}
use chops.WeakPtr.{Heap, Outcome, returns, throws, call_method, lock}
use chops.WeakPtr.Order.{put-at}

-- What a method returns the second time.
abbrev pub again : {A : Type 0} → A → Outcome A → Outcome A
again a (returns _) = returns a
again a (throws err) = throws err

module _ {O : Type 0} (test : O → Bool) (halt : O → Bool × O)
    (halt_result : (o : O) → (halt o).0 ≡ test o)
    (halt_off : (o : O) → test (halt o).1 ≡ false) where
  pub record HaltsOnce (hp : Heap O) (w : Option ℕ) : Type 0 where
    pub result : (call_method hp w halt).0 ≡ (call_method hp w (λ o. (test o, o))).0
    pub off :
        (call_method (call_method hp w halt).1 w (λ o. (test o, o))).0
        ≡ again false (call_method hp w halt).0
    pub again_off :
        (call_method (call_method hp w halt).1 w halt).0 ≡ again false (call_method hp w halt).0
    pub valid : has_value (lock (call_method hp w halt).1 w) ≡ has_value (lock hp w)

  object-HaltsOnce : (hp : Heap O) (p : ℕ) (o : Option O) → hp p ≡ o → HaltsOnce hp (some p)
  object-HaltsOnce hp p none e = record {
    result = rw e refl;
    off = rw (e, e) refl;
    again_off = rw (e, e) refl;
    valid = rw (e, e) refl;
  }
  object-HaltsOnce hp p (some o) e = record {
    result = rw e (ap returns (halt_result o));
    off = rw (e, put-at hp p (halt o).1) (ap returns (halt_off o));
    again_off = rw (e, put-at hp p (halt o).1) (ap returns (halt_result (halt o).1 ∙ halt_off o));
    valid = rw (e, put-at hp p (halt o).1) refl;
  }

  pub pointer-HaltsOnce : (hp : Heap O) (w : Option ℕ) → HaltsOnce hp w
  pointer-HaltsOnce hp none = record { result = refl; off = refl; again_off = refl; valid = refl }
  pointer-HaltsOnce hp (some p) = object-HaltsOnce hp p (hp p) refl
