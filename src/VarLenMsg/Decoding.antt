-- ===== src/VarLenMsg/Decoding.antt =====
-- The header of example/var_len_msg/var_len_hdr.hpp.
use chops.Prelude.{ℕ, ◌≡◌, ◌<◌, [], ◌∷◌, arith}
use chops.VarLenMsg.{BigToNative, decode_variable_len_msg_hdr}

-- Two headers of two bytes that decode to one size are the same bytes.
pub decode_variable_len_msg_hdr-injective :
    ⦃e : BigToNative⦄ (a b c d : ℕ)
    → a < 256
    → b < 256
    → c < 256
    → d < 256
    → decode_variable_len_msg_hdr (a ∷ b ∷ []) ≡ decode_variable_len_msg_hdr (c ∷ d ∷ [])
    → (a ≡ c) × (b ≡ d)
decode_variable_len_msg_hdr-injective ⦃e⦄ a b c d ha hb hc hd h =
    let ab = e.big_to_native-value a b in
    let cd = e.big_to_native-value c d in
    (omega (arith, ha, hb, hc, hd, h, ab, cd), omega (arith, ha, hb, hc, hd, h, ab, cd))
