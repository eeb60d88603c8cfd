-- ===== src/VarLenMsg.antt =====
-- example/var_len_msg/var_len_hdr.hpp: the decoder of a header of two bytes, and the message handler of
-- the example. A message of at most two bytes asks the handler to end.
use chops.Prelude.{
  ℕ, ◌≡◌, add_size, ◌+◌, ◌*◌, Bool, true, false, List, [], ◌∷◌, ◌++◌, length, ltb, if◌then◌else◌,
}
pub mod Decoding
pub mod Handling
pub mod Exchanged
mod Examples

-- `boost::endian::big_to_native` of the number whose two bytes in memory are given: they are in big
-- endian order.
pub record BigToNative : Type 0 where
  pub big_to_native : ℕ → ℕ → ℕ
  pub big_to_native-value : (b0 b1 : ℕ) → big_to_native b0 b1 ≡ b0 * 256 + b1

-- `sz` is asserted to be 2; of other buffers the result is not looked at.
abbrev pub decode_variable_len_msg_hdr : ⦃e : BigToNative⦄ → List ℕ → ℕ
decode_variable_len_msg_hdr ⦃e⦄ (b0 ∷ b1 ∷ _) = e.big_to_native b0 b1
decode_variable_len_msg_hdr _ = 0

-- `cnt` is the counter that the handler refers to, an atomic `std::size_t`, and `sent` are its sends on the io interface, newest
-- last.
pub record VarLenHdlr (E : Type 0) : Type 0 where
  pub reply : Bool
  pub cnt : ℕ
  pub sent : List (List ℕ × E)

-- A send of the buffer, if the handler replies.
abbrev pub reply_to : {E : Type 0} → VarLenHdlr E → List ℕ → E → VarLenHdlr E
reply_to m buf endp = if m.reply then record m { sent = m.sent ++ (buf, endp) ∷ [] } else m

unfoldable pub call_var_len_hdlr : {E : Type 0} → VarLenHdlr E → List ℕ → E → Bool × VarLenHdlr E
call_var_len_hdlr m buf endp =
    if ltb 2 (length buf)
    then (true, reply_to (record m { cnt = add_size m.cnt 1 }) buf endp)
    else (false, reply_to m buf endp)
