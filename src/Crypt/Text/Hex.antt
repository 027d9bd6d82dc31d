-- ===== src/Crypt/Text/Hex.antt =====
-- The hexadecimal text of bytes is read as these bytes.
use game_server.Common.{
  ℕ, ◌*◌, ◌/◌, ◌%◌, ◌<◌, ◌≡◌, refl, Bool, true, false, not, ◌&&◌, some, List, [], ◌∷◌, length, All,
  ltb, ◌==◌, passes, passes-below, arith,
}
use game_server.Crypt.Text.{hex, tohex, hex_value, hex_byte, hex_pairs, fromhex}

-- The two characters of a byte pass the test and make the byte.
abbrev reads_byte : ℕ → Bool
reads_byte b =
    not (ltb 16 (hex_value (hex (b / 16))))
    && (not (ltb 16 (hex_value (hex (b % 16))))
        && (hex_byte (hex_value (hex (b / 16))) (hex_value (hex (b % 16))) == b))

reads_byte_table : passes reads_byte 256 ≡ true
unfolding passes hex hex_value hex_byte
reads_byte_table = refl

reads_byte_parts :
    (b : ℕ)
    → b < 256
    → (ltb 16 (hex_value (hex (b / 16))) ≡ false)
      × (ltb 16 (hex_value (hex (b % 16))) ≡ false)
      × (hex_byte (hex_value (hex (b / 16))) (hex_value (hex (b % 16))) ≡ b)
reads_byte_parts b lt =
    let h = passes-below reads_byte 256 b reads_byte_table lt in
    (ground (arith, h), ground (arith, h), ground (arith, h))

hex_pairs-tohex : (bs : List ℕ) → All (λ b. b < 256) bs → hex_pairs (tohex bs) ≡ some bs
unfolding hex_pairs tohex
hex_pairs-tohex [] h = refl
hex_pairs-tohex (b ∷ bs) h =
    let (hi, low, byte) = reads_byte_parts b h.0 in rw (hi, low, hex_pairs-tohex bs h.1, byte) refl

length-tohex : (bs : List ℕ) → length (tohex bs) ≡ length bs * 2
unfolding tohex
length-tohex [] = refl
length-tohex (b ∷ bs) = omega (arith, length-tohex bs)

-- `lfromhex` of the text that `ltohex` makes of any bytes ends with these bytes.
pub fromhex-tohex : (bs : List ℕ) → All (λ b. b < 256) bs → fromhex (tohex bs) ≡ some bs
unfolding fromhex
fromhex-tohex bs h =
    let even : (length (tohex bs) % 2 == 1) ≡ false = ground (arith, length-tohex bs) in
    rw (even, hex_pairs-tohex bs h) refl
