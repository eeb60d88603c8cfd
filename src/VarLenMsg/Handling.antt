-- ===== src/VarLenMsg/Handling.antt =====
-- The message handler of example/var_len_msg/var_len_hdr.hpp over the messages of a connection.
use chops.Prelude.{
  ℕ, add_size, size_mod, ◌%◌, ◌<◌, ◌+◌, ◌≡◌, refl, sym, ◌∙◌, Bool, true, false, List, [], ◌∷◌, ◌++◌,
  length, ltb, if◌then◌else◌, append_assoc, append-nil, Bool-cases, inl, inr, arith,
}
use chops.VarLenMsg.{VarLenHdlr, call_var_len_hdlr}

module _ {E : Type 0} where
  -- The messages, given one after the other until one ends the reading; with whether it goes on.
  unfoldable pub handle : VarLenHdlr E → List (List ℕ × E) → Bool × VarLenHdlr E
  handle m [] = (true, m)
  handle m ((buf, endp) ∷ msgs) =
      let (more, m') = call_var_len_hdlr m buf endp in
      let rest = handle m' msgs in if more then rest else (false, m')

  -- The messages before the first one of at most two bytes; and those with it.
  abbrev pub before_shutdown : List (List ℕ × E) → List (List ℕ × E)
  before_shutdown [] = []
  before_shutdown ((buf, endp) ∷ msgs) =
      if ltb 2 (length buf) then (buf, endp) ∷ before_shutdown msgs else []

  abbrev pub with_shutdown : List (List ℕ × E) → List (List ℕ × E)
  with_shutdown [] = []
  with_shutdown ((buf, endp) ∷ msgs) =
      if ltb 2 (length buf) then (buf, endp) ∷ with_shutdown msgs else (buf, endp) ∷ []

  record Handles (m m' : VarLenHdlr E) (msgs : List (List ℕ × E)) : Type 0 where
    same_reply : m'.reply ≡ m.reply
    counted : m'.cnt ≡ (m.cnt + length (before_shutdown msgs)) % size_mod
    replied : m'.sent ≡ (if m.reply then m.sent ++ with_shutdown msgs else m.sent)

  handle_at-Handles :
      (msgs : List (List ℕ × E)) (reply : Bool) (m : VarLenHdlr E)
      → m.cnt < size_mod
      → Handles (record m { reply = reply }) (handle (record m { reply = reply }) msgs).1 msgs
  unfolding handle call_var_len_hdlr
  handle_at-Handles [] true m lt = record {
    same_reply = refl;
    counted = omega arith;
    replied = sym (append-nil m.sent);
  }
  handle_at-Handles [] false m lt = record {
    same_reply = refl;
    counted = omega arith;
    replied = refl;
  }
  handle_at-Handles ((buf, endp) ∷ msgs) true m lt = elim (Bool-cases (ltb 2 (length buf))) [
    | inl long ↦
        let v =
          handle_at-Handles msgs true
            (record m { cnt = add_size m.cnt 1; sent = m.sent ++ (buf, endp) ∷ [] })
            (omega arith) in
        rw long (record {
          same_reply = v.same_reply;
          counted = v.counted ∙ rw long (omega arith);
          replied =
              v.replied
              ∙ append_assoc m.sent ((buf, endp) ∷ []) (with_shutdown msgs)
              ∙ rw long refl;
        })
    | inr short ↦
        rw short
          (record { same_reply = refl; counted = rw short (omega arith); replied = rw short refl })
  ]
  handle_at-Handles ((buf, endp) ∷ msgs) false m lt = elim (Bool-cases (ltb 2 (length buf))) [
    | inl long ↦
        let v = handle_at-Handles msgs false (record m { cnt = add_size m.cnt 1 }) (omega arith) in
        rw long (record {
          same_reply = v.same_reply;
          counted = v.counted ∙ rw long (omega arith);
          replied = v.replied;
        })
    | inr short ↦
        rw short (record { same_reply = refl; counted = rw short (omega arith); replied = refl })
  ]

  -- Of the messages of a connection, those before the first one of at most two bytes are counted, modulo
  -- 2^64. With `reply` they are sent back in order, and that one too, each to the endpoint that it came from.
  pub handle-before_shutdown :
      (msgs : List (List ℕ × E)) (m : VarLenHdlr E)
      → m.cnt < size_mod
      → let m' = (handle m msgs).1 in
        (m'.cnt ≡ (m.cnt + length (before_shutdown msgs)) % size_mod)
        × (m'.sent ≡ (if m.reply then m.sent ++ with_shutdown msgs else m.sent))
  handle-before_shutdown msgs m lt =
      let v = handle_at-Handles msgs m.reply m lt in (v.counted, v.replied)
