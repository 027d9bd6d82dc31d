-- ===== src/Crypt/Text.antt =====
-- Bytes as text: the hexadecimal and the base64 form. A `char` is the number of its byte.
pub mod Hex
pub mod Base64
use Prim.Native.Nat.{bit_or}
use game_server.Common.{
  ℕ, zero, suc, ◌+◌, ◌-◌, ◌*◌, ◌/◌, ◌%◌, ◌^◌, Option, none, some, List, [], ◌∷◌, ◌++◌, length, leb,
  ltb, ◌==◌, if◌then◌else◌,
}

-- `hex[n]`
unfoldable pub hex : ℕ → ℕ
hex n = if ltb n 10 then 48 + n else 87 + n

-- `ltohex`
unfoldable pub tohex : List ℕ → List ℕ
tohex [] = []
tohex (b ∷ bs) = hex (b / 16) ∷ hex (b % 16) ∷ tohex bs

-- `HEX`: the value of a character, as `uint8_t`.
unfoldable pub hex_value : ℕ → ℕ
hex_value c = if ltb c 48 then (c + 169) % 256 else (if leb c 57 then c - 48 else (c + 169) % 256)

-- `hi<<4 | low`, as a `char`
unfoldable pub hex_byte : ℕ → ℕ → ℕ
hex_byte hi low = bit_or (hi * 16) low % 256

-- The loop of `lfromhex`.
unfoldable pub hex_pairs : List ℕ → Option (List ℕ)
hex_pairs [] = some []
hex_pairs (a ∷ []) = none
hex_pairs (a ∷ b ∷ text) =
    let rest = hex_pairs text in
    if ltb 16 (hex_value a)
    then none
    else (if ltb 16 (hex_value b)
        then none
        else elim rest [ none ↦ none | some bs ↦ some (hex_byte (hex_value a) (hex_value b) ∷ bs) ])

-- `lfromhex`
unfoldable pub fromhex : List ℕ → Option (List ℕ)
fromhex text = if length text % 2 == 1 then none else hex_pairs text

-- `encoding[v]`
unfoldable pub b64digit : ℕ → ℕ
b64digit v =
    if ltb v 26
    then 65 + v
    else (if ltb v 52 then 71 + v else (if ltb v 62 then v - 4 else (if v == 62 then 43 else 47)))

-- `lb64encode`
unfoldable pub b64encode : List ℕ → List ℕ
b64encode [] = []
b64encode (a ∷ []) = b64digit (a / 4) ∷ b64digit (a % 4 * 16) ∷ 61 ∷ 61 ∷ []
b64encode (a ∷ b ∷ []) =
    let v = a * 256 + b in
    b64digit (v / 1024) ∷ b64digit (v / 16 % 64) ∷ b64digit (v % 16 * 4) ∷ 61 ∷ []
b64encode (a ∷ b ∷ c ∷ text) =
    let v = a * 65536 + b * 256 + c in
    b64digit (v / 2 ^ 18)
    ∷ b64digit (v / 2 ^ 12 % 64)
    ∷ b64digit (v / 64 % 64)
    ∷ b64digit (v % 64)
    ∷ b64encode text

-- What `b64index` returns: -2 is `pad`, and -1 is `none`.
pub data Index : Type 0 where
  pad : Index
  digit : ℕ → Index

-- `b64index`
unfoldable pub b64index : ℕ → Option Index
b64index c =
    if ltb c 43
    then none
    else (if c == 43
        then some (digit 62)
        else (if ltb c 47
            then none
            else (if c == 47
                then some (digit 63)
                else (if ltb c 58
                    then some (digit (c + 4))
                    else (if c == 61
                        then some pad
                        else (if ltb c 65
                            then none
                            else (if ltb c 91
                                then some (digit (c - 65))
                                else (if ltb c 97
                                    then none
                                    else (if ltb c 123 then some (digit (c - 71)) else none)))))))))

-- The inner loop of `lb64decode`, with `n` of the group still to come: the group and the text behind
-- it; `none` is the error at the end of the text.
pub read_group : ℕ → List ℕ → Option (List Index × List ℕ)
read_group zero text = some ([], text)
read_group (suc n) [] = none
read_group (suc n) (t ∷ text) =
    let skipped = read_group (suc n) text in
    let rest = read_group n text in
    elim (b64index t) [
      | none ↦ skipped
      | some c ↦ elim rest [ none ↦ none | some (cs, after) ↦ some (c ∷ cs, after) ]
    ]

-- The bytes of a group, by the number of its pads; `none` is an error.
pub group_three : ℕ → ℕ → ℕ → ℕ → Option (List ℕ)
group_three a b c d =
    let v = a * 2 ^ 18 + b * 2 ^ 12 + c * 64 + d in
    some ((v / 65536) % 256 ∷ v / 256 % 256 ∷ v % 256 ∷ [])

pub group_two : ℕ → ℕ → ℕ → Option (List ℕ)
group_two a b c =
    let v = a * 1024 + b * 16 + c / 4 in
    if c % 4 == 0 then some (v / 256 % 256 ∷ v % 256 ∷ []) else none

pub group_one : ℕ → ℕ → Option (List ℕ)
group_one a b = if b % 16 == 0 then some ((a * 4 + b / 16) % 256 ∷ []) else none

pub last_two : ℕ → ℕ → Index → Index → Option (List ℕ)
last_two a b pad pad = group_one a b
last_two a b pad (digit d) = none
last_two a b (digit c) pad = group_two a b c
last_two a b (digit c) (digit d) = group_three a b c d

pub decode_group : List Index → Option (List ℕ)
decode_group (digit a ∷ digit b ∷ c ∷ d ∷ []) = last_two a b c d
decode_group cs = none

-- The loop of `lb64decode` on fuel.
pub decode_groups : ℕ → List ℕ → Option (List ℕ)
decode_groups fuel [] = some []
decode_groups zero (t ∷ text) = none
decode_groups (suc fuel) (t ∷ text) = elim (read_group 4 (t ∷ text)) [
  | none ↦ none
  | some (cs, after) ↦
      let rest = decode_groups fuel after in
      elim (decode_group cs) [
        | none ↦ none
        | some bytes ↦ elim rest [ none ↦ none | some more ↦ some (bytes ++ more) ]
      ]
]

-- `lb64decode`; each group takes a character at least.
pub b64decode : List ℕ → Option (List ℕ)
b64decode text = decode_groups (length text) text
