-- ===== src/Seri/Pack/Written.antt =====
-- The packer writes the format: `pack_one` and the functions below it push what `encode` says.
use game_server.Common.{
  ℕ, suc, ◌-◌, ◌%◌, ◌^◌, ◌≤◌, ◌≡◌, refl, sym, Bool, true, false, Option, none, some, List, [], ◌∷◌,
  ◌++◌, append-nil, length, ltb, leb, ◌==◌, if◌then◌else◌, arith,
}
use game_server.Seri.{
  Value, nil, boolean, integer, real, pointer, string, table, paired, other, Items, no_items, item,
  Pairs, no_pairs, pair, count, type_nil, type_boolean, type_number, type_userdata,
  type_short_string, type_long_string, type_table, number_real, max_cookie, combine_type, le_bytes,
}
use game_server.Seri.Blocks.{WriteBlock, wb_push}
use game_server.Seri.Blocks.Chain.{IsChain, Pushed, Pushed-Pushed, wb_push_lem}
use game_server.Seri.Pack.{
  max_depth, wb_nil, wb_boolean, is_wide, is_negative, wb_integer, wb_real, wb_pointer, wb_string,
  wb_array_size, is_item_key, guarded, pack_one, pack_items, pack_pairs,
}
use game_server.Seri.Format.{
  encode_integer, encode_string, encode_size, encode, encode_items, encode_pairs, Packable,
  PackableItems, PackablePairs,
}

-- A run of the packer that ends well.
pub record Packed (buf : List ℕ) (b : WriteBlock) (r : Option WriteBlock) : Type 0 where
  pub after : WriteBlock
  pub returns : r ≡ some after
  pub pushed : Pushed buf b after

Pushed-if :
    (t : Bool) {xs ys : List ℕ} {b x y : WriteBlock}
    → Pushed xs b x
    → Pushed ys b y
    → Pushed (if t then xs else ys) b (if t then x else y)
Pushed-if true p q = p
Pushed-if false p q = q

-- a tag, and the bytes behind it
tagged :
    (t : ℕ) (buf : List ℕ) {b : WriteBlock}
    → IsChain b
    → Pushed (t ∷ buf) b (wb_push buf (wb_push (t ∷ []) b))
tagged t buf {b} c =
    let one = wb_push_lem (t ∷ []) b c in
    Pushed-Pushed one (wb_push_lem buf (wb_push (t ∷ []) b) one.chain) refl

wb_integer-Pushed :
    (v : ℕ) {b : WriteBlock} → IsChain b → Pushed (encode_integer v) b (wb_integer v b)
unfolding encode_integer wb_integer
wb_integer-Pushed v {b} c = Pushed-if (v == 0) (wb_push_lem (combine_type type_number 0 ∷ []) b c) (
    Pushed-if (is_wide v) (tagged (combine_type type_number 6) (le_bytes 8 v) c) (
      Pushed-if (is_negative v) (tagged (combine_type type_number 4) (le_bytes 4 (v % 2 ^ 32)) c) (
        Pushed-if (ltb v 0x100) (tagged (combine_type type_number 1) (le_bytes 1 v) c) (
          Pushed-if (ltb v 0x10000) (tagged (combine_type type_number 2) (le_bytes 2 v) c)
            (tagged (combine_type type_number 4) (le_bytes 4 (v % 2 ^ 32)) c)))))

-- a tag, a length and a string
long_string :
    (t : ℕ) (len str : List ℕ) {b : WriteBlock}
    → IsChain b
    → Pushed (t ∷ (len ++ str)) b (wb_push str (wb_push len (wb_push (t ∷ []) b)))
long_string t len str {b} c =
    let two = tagged t len c in
    Pushed-Pushed two (wb_push_lem str (wb_push len (wb_push (t ∷ []) b)) two.chain) refl

short_string :
    (t : ℕ) (str : List ℕ) {b : WriteBlock}
    → IsChain b
    → Pushed
        (t ∷ str)
        b
        (if ltb 0 (length str) then wb_push str (wb_push (t ∷ []) b) else wb_push (t ∷ []) b)
short_string t [] {b} c = wb_push_lem (t ∷ []) b c
short_string t (x ∷ str) c =
    let some_bytes : ltb 0 (suc (length str)) ≡ true = ground arith in
    rw some_bytes (tagged t (x ∷ str) c)

wb_string-Pushed :
    (str : List ℕ) {b : WriteBlock} → IsChain b → Pushed (encode_string str) b (wb_string str b)
unfolding encode_string wb_string
wb_string-Pushed str {b} c =
    let len : ℕ = length str in
    Pushed-if (ltb len max_cookie) (short_string (combine_type type_short_string len) str c) (
      Pushed-if (ltb len 0x10000)
        (long_string (combine_type type_long_string 2) (le_bytes 2 len) str c)
        (long_string (combine_type type_long_string 4) (le_bytes 4 len) str c))

wb_array_size-Pushed :
    (n : ℕ) {b : WriteBlock} → IsChain b → Pushed (encode_size n) b (wb_array_size n b)
unfolding encode_size wb_array_size
wb_array_size-Pushed n {b} c =
    let head = wb_push_lem (combine_type type_table (max_cookie - 1) ∷ []) b c in
    Pushed-if (leb (max_cookie - 1) n) (Pushed-Pushed head (wb_integer-Pushed n head.chain) refl)
      (wb_push_lem (combine_type type_table n ∷ []) b c)

packed : {buf : List ℕ} {b b' : WriteBlock} → Pushed buf b b' → Packed buf b (some b')
packed {buf} {b} {b'} p = record { after = b'; returns = refl; pushed = p }

Packed-guarded :
    (d : ℕ) {buf : List ℕ} {b : WriteBlock} {r : Option WriteBlock}
    → d ≤ max_depth
    → Packed buf b r
    → Packed buf b (guarded d r)
Packed-guarded d {buf} {b} {r} h p =
    let open_ : ltb max_depth d ≡ false = ground arith in rw open_ p

-- A run behind a push, and one run behind another.
Packed-behind :
    {xs ys : List ℕ} {b b' : WriteBlock} {r : Option WriteBlock}
    → Pushed xs b b'
    → Packed ys b' r
    → Packed (xs ++ ys) b r
Packed-behind p q = record {
  after = q.after;
  returns = q.returns;
  pushed = Pushed-Pushed p q.pushed refl;
}

pub Packed-Packed :
    {xs ys : List ℕ} {b : WriteBlock} {r : Option WriteBlock} {f : WriteBlock → Option WriteBlock}
    → Packed xs b r
    → ((b' : WriteBlock) → IsChain b' → Packed ys b' (f b'))
    → Packed (xs ++ ys) b (elim r [ none ↦ none | some b' ↦ f b' ])
Packed-Packed {xs} {ys} {b} {r} {f} p k =
    let q = k p.after p.pushed.chain in
    record {
      after = q.after;
      returns = rw p.returns q.returns;
      pushed = Pushed-Pushed p.pushed q.pushed refl;
    }

Packed-if :
    (t : Bool) {xs ys : List ℕ} {b : WriteBlock} {r s : Option WriteBlock}
    → Packed xs b r
    → Packed ys b s
    → Packed (if t then xs else ys) b (if t then r else s)
Packed-if true p q = p
Packed-if false p q = q

mutual
  unfolding pack_one encode encode_size wb_nil wb_boolean wb_real wb_pointer

  pub pack_one-Packed :
      (d : ℕ) (v : Value) (b : WriteBlock)
      → IsChain b
      → Packable d v
      → Packed (encode v) b (pack_one d v b)
  pack_one-Packed d nil b c h = Packed-guarded d h (packed (wb_push_lem (type_nil ∷ []) b c))
  pack_one-Packed d (boolean v) b c h =
      Packed-guarded d h
        (packed (wb_push_lem (combine_type type_boolean (if v then 1 else 0) ∷ []) b c))
  pack_one-Packed d (integer v) b c h = Packed-guarded d h.0 (packed (wb_integer-Pushed v c))
  pack_one-Packed d (real v) b c h =
      Packed-guarded d h.0 (packed (tagged (combine_type type_number number_real) (le_bytes 8 v) c))
  pack_one-Packed d (pointer v) b c h =
      Packed-guarded d h.0 (packed (tagged type_userdata (le_bytes 8 v) c))
  pack_one-Packed d (string str) b c h = Packed-guarded d h.0 (packed (wb_string-Pushed str c))
  pack_one-Packed d (table vs ps) b c (hd, n, hvs, hps) =
      let head = wb_array_size-Pushed (count vs) c in
      let array = pack_items-Packed (suc d) vs (wb_array_size (count vs) b) head.chain hvs in
      Packed-guarded d hd (
        Packed-behind head
          (Packed-Packed array (λ b' c'. pack_pairs-Packed (suc d) (count vs) ps b' c' hps)))
  pack_one-Packed d (paired ps) b c (hd, hps) =
      let head = wb_push_lem (combine_type type_table 0 ∷ []) b c in
      Packed-guarded d hd (
        Packed-behind head (
          pack_pairs-Packed (suc d) 0 ps (wb_push (combine_type type_table 0 ∷ []) b) head.chain
            hps))
  pack_one-Packed d other b c h = elim h [ ]

  pack_items-Packed :
      (d : ℕ) (vs : Items) (b : WriteBlock)
      → IsChain b
      → PackableItems d vs
      → Packed (encode_items vs) b (pack_items d vs b)
  pack_items-Packed d no_items b c h = record {
    after = b;
    returns = refl;
    pushed = record { chain = c; adds = sym (append-nil _) };
  }
  pack_items-Packed d (item v vs) b c h =
      Packed-Packed (pack_one-Packed d v b c h.0) (λ b' c'. pack_items-Packed d vs b' c' h.1)

  pack_pairs-Packed :
      (d n : ℕ) (ps : Pairs) (b : WriteBlock)
      → IsChain b
      → PackablePairs d ps
      → Packed (encode_pairs n ps) b (pack_pairs d n ps b)
  pack_pairs-Packed d n no_pairs b c h = packed (wb_push_lem (type_nil ∷ []) b c)
  pack_pairs-Packed d n (pair k v ps) b c (key, hk, hv, hps) =
      Packed-if (is_item_key n k) (pack_pairs-Packed d n ps b c hps) (
        Packed-Packed (pack_one-Packed d k b c hk) (λ b1 c1.
          Packed-Packed (pack_one-Packed d v b1 c1 hv)
            (λ b2 c2. pack_pairs-Packed d n ps b2 c2 hps)))
