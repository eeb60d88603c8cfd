-- ===== src/SendToAll/Totals.antt =====
-- `get_total_output_queue_stats` of net_ip/component/send_to_all.hpp.
use chops.Prelude.{
  ℕ, ◌+◌, ◌%◌, ◌≡◌, refl, ap, ap₂, ◌∙◌, if◌then◌else◌, Bool-cases, inl, inr, false, Option, none,
  some, List, [], ◌∷◌, add_size, size_mod, arith,
}
use chops.NetIpError.{make_error_code, weak_ptr_expired}
use chops.OutputQueue.{OutputQueueStats}
use chops.WeakPtr.{Heap, returns, throws, call_object, call_method}
use chops.BasicIoInterface.{BasicIoInterface, IoHandler, is_valid, get_output_queue_stats}
use chops.SendToAll.{SendToAll, add_stats, get_total_output_queue_stats}
use chops.SendToAll.Sending.{all_valid, object_of, call_method-expired}

-- Two numbers as `size_t` counters.
abbrev pub wrapped : ℕ → ℕ → OutputQueueStats
wrapped n m = record { output_queue_size = n % size_mod; bytes_in_output_queue = m % size_mod }

add_size-mod : (n x : ℕ) → add_size (n % size_mod) x ≡ (n + x) % size_mod
add_size-mod n x = omega arith

module _ {O : Type 0} ⦃ioh : IoHandler O⦄ where
  -- A statistic of an object, if there is one, and the sum of a statistic over interfaces.
  abbrev pub measure_object : (O → ℕ) → Option O → ℕ
  measure_object f none = 0
  measure_object f (some o) = f o

  abbrev pub measure : (O → ℕ) → Heap O → Option ℕ → ℕ
  measure f hp none = 0
  measure f hp (some p) = measure_object f (hp p)

  abbrev pub sum : (O → ℕ) → Heap O → List BasicIoInterface → ℕ
  sum f hp [] = 0
  sum f hp (io ∷ ios) = measure f hp io.ioh_wptr + sum f hp ios

  abbrev pub stats_of : Heap O → List BasicIoInterface → ℕ → ℕ → OutputQueueStats
  stats_of hp ios n m =
      wrapped (n + sum (λ o. (ioh.get_output_queue_stats o).output_queue_size) hp ios)
        (m + sum (λ o. (ioh.get_output_queue_stats o).bytes_in_output_queue) hp ios)

  measure-object :
      (f : O → ℕ) (hp : Heap O) (io : BasicIoInterface) (p : ℕ) (o : O)
      → io.ioh_wptr ≡ some p
      → hp p ≡ some o
      → measure f hp io.ioh_wptr ≡ f o
  measure-object f hp io p o ew eo = ap (measure f hp) ew ∙ ap (measure_object f) eo

  get_output_queue_stats-valid :
      (hp : Heap O) (io : BasicIoInterface) (p : ℕ) (o : O)
      → io.ioh_wptr ≡ some p
      → hp p ≡ some o
      → (get_output_queue_stats hp io).0 ≡ returns (ioh.get_output_queue_stats o)
  unfolding get_output_queue_stats
  get_output_queue_stats-valid hp io p o ew eo =
      let method : O → OutputQueueStats × O = λ x. (ioh.get_output_queue_stats x, x) in
      ap (λ r. r.0) (ap (λ w. call_method hp w method) ew ∙ ap (λ x. call_object hp p x method) eo)

  get_output_queue_stats-expired :
      (hp : Heap O) (io : BasicIoInterface)
      → is_valid hp io ≡ false
      → (get_output_queue_stats hp io).0 ≡ throws (make_error_code weak_ptr_expired)
  unfolding get_output_queue_stats
  get_output_queue_stats-expired hp io v =
      ap (λ r. r.0) (call_method-expired hp io.ioh_wptr (λ x. (ioh.get_output_queue_stats x, x)) v)

  add_stats-sum :
      (ios : List BasicIoInterface) (hp : Heap O) (n m : ℕ)
      → add_stats hp ios (wrapped n m)
        ≡ (if all_valid hp ios then some (stats_of hp ios n m) else none)
  unfolding add_stats
  add_stats-sum [] hp n m = ap some (ap₂ wrapped (omega arith) (omega arith))
  add_stats-sum (io ∷ ios) hp n m = elim (Bool-cases (is_valid hp io)) [
    | inl valid ↦
        let (p, o, ew, eo) = object_of hp io.ioh_wptr valid in
        rw (get_output_queue_stats-valid hp io p o ew eo, valid)
          (ap (add_stats hp ios) (
              ap₂ (λ x y. record { output_queue_size = x; bytes_in_output_queue = y })
                (add_size-mod n _) (add_size-mod m _))
            ∙ add_stats-sum ios hp _ _
            ∙ ap (λ t. if all_valid hp ios then some t else none)
                (ap₂ wrapped
                  (omega (
                    arith,
                    measure-object (λ x. (ioh.get_output_queue_stats x).output_queue_size) hp io p o
                        ew eo,
                  ))
                  (omega (
                    arith,
                    measure-object (λ x. (ioh.get_output_queue_stats x).bytes_in_output_queue) hp io
                        p o ew eo,
                  ))))
    | inr expired ↦ rw (get_output_queue_stats-expired hp io expired, expired) refl
  ]

  -- Where all interfaces of the collection are valid, the totals are the sums of the statistics of
  -- their handlers, modulo 2^64. Where one is expired, the exception ends the program.
  pub get_total_output_queue_stats-sum :
      (hp : Heap O) (s : SendToAll)
      → get_total_output_queue_stats hp s
        ≡ (if all_valid hp s.io_intfs then some (stats_of hp s.io_intfs 0 0) else none)
  unfolding get_total_output_queue_stats
  get_total_output_queue_stats-sum hp s = add_stats-sum s.io_intfs hp 0 0
