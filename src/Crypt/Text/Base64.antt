-- ===== src/Crypt/Text/Base64.antt =====
-- The base64 text of bytes is read as these bytes.
use game_server.Common.{
  ℕ, zero, suc, ◌+◌, ◌*◌, ◌/◌, ◌%◌, ◌^◌, ◌≤◌, ◌<◌, ◌≡◌, refl, some, List, [], ◌∷◌, ◌++◌, length,
  All, arith,
}
use game_server.Crypt.Text.{
  b64digit, b64encode, pad, digit, Index, b64index, read_group, group_three, group_two, group_one,
  last_two, decode_group, decode_groups, b64decode,
}

b64index-b64digit : (v : ℕ) → v < 64 → b64index (b64digit v) ≡ some (digit v)
unfolding b64index b64digit
b64index-b64digit v lt = ground arith

read_group_next :
    (n t : ℕ) (c : Index) (text : List ℕ) (cs : List Index) (after : List ℕ)
    → b64index t ≡ some c
    → read_group n text ≡ some (cs, after)
    → read_group (suc n) (t ∷ text) ≡ some (c ∷ cs, after)
unfolding read_group
read_group_next n t c text cs after e f = rw (read_group, e, f) refl

-- A group of four characters is read as a whole.
read_group_four :
    (t u v w : ℕ) (a b c d : Index) (text : List ℕ)
    → b64index t ≡ some a
    → b64index u ≡ some b
    → b64index v ≡ some c
    → b64index w ≡ some d
    → read_group 4 (t ∷ u ∷ v ∷ w ∷ text) ≡ some (a ∷ b ∷ c ∷ d ∷ [], text)
unfolding read_group
read_group_four t u v w a b c d text ea eb ec ed =
    read_group_next 3 t a (u ∷ v ∷ w ∷ text) (b ∷ c ∷ d ∷ []) text ea (
      read_group_next 2 u b (v ∷ w ∷ text) (c ∷ d ∷ []) text eb (
        read_group_next 1 v c (w ∷ text) (d ∷ []) text ec
          (read_group_next 0 w d text [] text ed refl)))

decode_groups_step :
    (fuel t : ℕ) (text : List ℕ) (cs : List Index) (after bytes more : List ℕ)
    → read_group 4 (t ∷ text) ≡ some (cs, after)
    → decode_group cs ≡ some bytes
    → decode_groups fuel after ≡ some more
    → decode_groups (suc fuel) (t ∷ text) ≡ some (bytes ++ more)
unfolding decode_groups
decode_groups_step fuel t text cs after bytes more e f g = rw (decode_groups, e, f, g) refl

decode_groups_end : (fuel : ℕ) → decode_groups fuel [] ≡ some []
unfolding decode_groups
decode_groups_end zero = refl
decode_groups_end (suc fuel) = refl

rejoin : (v : ℕ) → v / 2 ^ 18 * 2 ^ 18 + v / 2 ^ 12 % 64 * 2 ^ 12 + v / 64 % 64 * 64 + v % 64 ≡ v
rejoin v =
    let one : v ≡ v / 64 * 64 + v % 64 = omega arith in
    let two : v / 64 ≡ v / 2 ^ 12 * 64 + v / 64 % 64 = omega arith in
    let three : v / 2 ^ 12 ≡ v / 2 ^ 18 * 64 + v / 2 ^ 12 % 64 = omega arith in omega arith

group_three_lem :
    (a b c : ℕ)
    → a < 256
    → b < 256
    → c < 256
    → (let v : ℕ = a * 65536 + b * 256 + c in
        group_three (v / 2 ^ 18) (v / 2 ^ 12 % 64) (v / 64 % 64) (v % 64) ≡ some (a ∷ b ∷ c ∷ []))
unfolding group_three
group_three_lem a b c ha hb hc =
    let v : ℕ = a * 65536 + b * 256 + c in
    let whole : v / 2 ^ 18 * 2 ^ 18 + v / 2 ^ 12 % 64 * 2 ^ 12 + v / 64 % 64 * 64 + v % 64 ≡ v =
      rejoin v in
    let high : v / 65536 % 256 ≡ a = omega arith in
    let middle : v / 256 % 256 ≡ b = omega arith in
    let low : v % 256 ≡ c = omega arith in rw (group_three, whole, high, middle, low) refl

group_two_lem :
    (a b : ℕ)
    → a < 256
    → b < 256
    → (let v : ℕ = a * 256 + b in
        group_two (v / 1024) (v / 16 % 64) (v % 16 * 4) ≡ some (a ∷ b ∷ []))
unfolding group_two
group_two_lem a b ha hb = ground arith

group_one_lem : (a : ℕ) → a < 256 → group_one (a / 4) (a % 4 * 16) ≡ some (a ∷ [])
unfolding group_one
group_one_lem a ha = ground arith

b64index_pad : b64index 61 ≡ some pad
unfolding b64index
b64index_pad = refl

decode_one :
    (a : ℕ)
    → a < 256
    → decode_group (digit (a / 4) ∷ digit (a % 4 * 16) ∷ pad ∷ pad ∷ []) ≡ some (a ∷ [])
unfolding decode_group last_two
decode_one a ha = group_one_lem a ha

decode_two :
    (a b : ℕ)
    → a < 256
    → b < 256
    → (let v : ℕ = a * 256 + b in
        decode_group (digit (v / 1024) ∷ digit (v / 16 % 64) ∷ digit (v % 16 * 4) ∷ pad ∷ [])
        ≡ some (a ∷ b ∷ []))
unfolding decode_group last_two
decode_two a b ha hb = group_two_lem a b ha hb

decode_three :
    (a b c : ℕ)
    → a < 256
    → b < 256
    → c < 256
    → (let v : ℕ = a * 65536 + b * 256 + c in
        decode_group
          (digit (v / 2 ^ 18) ∷ digit (v / 2 ^ 12 % 64) ∷ digit (v / 64 % 64) ∷ digit (v % 64) ∷ [])
        ≡ some (a ∷ b ∷ c ∷ []))
unfolding decode_group last_two
decode_three a b c ha hb hc = group_three_lem a b c ha hb hc

decode_groups-b64encode :
    (fuel : ℕ) (bs : List ℕ)
    → All (λ b. b < 256) bs
    → length bs ≤ fuel
    → decode_groups fuel (b64encode bs) ≡ some bs
unfolding b64encode
decode_groups-b64encode fuel [] h le = decode_groups_end fuel
decode_groups-b64encode zero (a ∷ bs) h le = absurd (omega arith)
decode_groups-b64encode (suc fuel) (a ∷ []) h le =
    decode_groups_step fuel (b64digit (a / 4)) (b64digit (a % 4 * 16) ∷ 61 ∷ 61 ∷ [])
      (digit (a / 4) ∷ digit (a % 4 * 16) ∷ pad ∷ pad ∷ []) [] (a ∷ []) []
      (read_group_four (b64digit (a / 4)) (b64digit (a % 4 * 16)) 61 61 (digit (a / 4))
        (digit (a % 4 * 16)) pad pad [] (b64index-b64digit (a / 4) (omega arith))
        (b64index-b64digit (a % 4 * 16) (omega arith)) b64index_pad b64index_pad)
      (decode_one a h.0) (decode_groups_end fuel)
decode_groups-b64encode (suc fuel) (a ∷ b ∷ []) h le =
    let v : ℕ = a * 256 + b in
    decode_groups_step fuel (b64digit (v / 1024))
      (b64digit (v / 16 % 64) ∷ b64digit (v % 16 * 4) ∷ 61 ∷ [])
      (digit (v / 1024) ∷ digit (v / 16 % 64) ∷ digit (v % 16 * 4) ∷ pad ∷ []) [] (a ∷ b ∷ []) []
      (read_group_four (b64digit (v / 1024)) (b64digit (v / 16 % 64)) (b64digit (v % 16 * 4)) 61
        (digit (v / 1024)) (digit (v / 16 % 64)) (digit (v % 16 * 4)) pad []
        (b64index-b64digit (v / 1024) (omega (arith, h.0, h.1.0)))
        (b64index-b64digit (v / 16 % 64) (omega arith))
        (b64index-b64digit (v % 16 * 4) (omega arith)) b64index_pad)
      (decode_two a b h.0 h.1.0) (decode_groups_end fuel)
decode_groups-b64encode (suc fuel) (a ∷ b ∷ c ∷ bs) h le =
    let v : ℕ = a * 65536 + b * 256 + c in
    decode_groups_step fuel (b64digit (v / 2 ^ 18))
      (b64digit (v / 2 ^ 12 % 64) ∷ b64digit (v / 64 % 64) ∷ b64digit (v % 64) ∷ b64encode bs)
      (digit (v / 2 ^ 18) ∷ digit (v / 2 ^ 12 % 64) ∷ digit (v / 64 % 64) ∷ digit (v % 64) ∷ [])
      (b64encode bs) (a ∷ b ∷ c ∷ []) bs
      (read_group_four (b64digit (v / 2 ^ 18)) (b64digit (v / 2 ^ 12 % 64)) (b64digit (v / 64 % 64))
        (b64digit (v % 64)) (digit (v / 2 ^ 18)) (digit (v / 2 ^ 12 % 64)) (digit (v / 64 % 64))
        (digit (v % 64)) (b64encode bs)
        (b64index-b64digit (v / 2 ^ 18) (omega (arith, h.0, h.1.0, h.1.1.0)))
        (b64index-b64digit (v / 2 ^ 12 % 64) (omega arith))
        (b64index-b64digit (v / 64 % 64) (omega arith)) (b64index-b64digit (v % 64) (omega arith)))
      (decode_three a b c h.0 h.1.0 h.1.1.0) (decode_groups-b64encode fuel bs h.1.1.1 (omega arith))

-- Three bytes make a group of four characters.
length-b64encode : (n : ℕ) (bs : List ℕ) → length bs ≤ n → length bs ≤ length (b64encode bs)
unfolding b64encode
length-b64encode n [] le = omega arith
length-b64encode n (a ∷ []) le = omega arith
length-b64encode n (a ∷ b ∷ []) le = omega arith
length-b64encode zero (a ∷ b ∷ c ∷ bs) le = absurd (omega arith)
length-b64encode (suc n) (a ∷ b ∷ c ∷ bs) le = omega (arith, length-b64encode n bs (omega arith))

-- `lb64decode` of the text that `lb64encode` makes of any bytes ends with these bytes.
pub b64decode-b64encode : (bs : List ℕ) → All (λ b. b < 256) bs → b64decode (b64encode bs) ≡ some bs
unfolding b64decode
b64decode-b64encode bs h =
    decode_groups-b64encode (length (b64encode bs)) bs h
      (length-b64encode (length bs) bs (omega arith))
