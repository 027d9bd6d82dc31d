-- ===== src/LuaHash/Order.antt =====
-- The hash of a table does not depend on the order in which its pairs are met.
use game_server.Common.{ℕ, ◌≡◌, refl, ap, ◌∙◌, Option, some, arith}
use game_server.LuaHash.{Value, Pairs, table, pair, add_pair, scale, hash_one, hash_pairs, hashcode}

-- The same pairs in another order.
pub data Reordered : Pairs → Pairs → Type 0 where
  same : {ps : Pairs} → Reordered ps ps
  keep : (k v : Value) {ps qs : Pairs} → Reordered ps qs → Reordered (pair k v ps) (pair k v qs)
  swap :
      (k v l w : Value) (ps : Pairs) → Reordered (pair k v (pair l w ps)) (pair l w (pair k v ps))
  join : {ps qs rs : Pairs} → Reordered ps qs → Reordered qs rs → Reordered ps rs

add_pair_swap :
    (h a b c d : Option ℕ) → add_pair (add_pair h a b) c d ≡ add_pair (add_pair h c d) a b
unfolding add_pair
add_pair_swap h a b c d = ground arith

hash_pairs-Reordered :
    {ps qs : Pairs} (depth : ℕ) (h : Option ℕ)
    → Reordered ps qs
    → hash_pairs ps depth h ≡ hash_pairs qs depth h
unfolding hash_pairs
hash_pairs-Reordered depth h same = refl
hash_pairs-Reordered depth h (keep k v r) =
    hash_pairs-Reordered depth (add_pair h (hash_one k depth) (hash_one v depth)) r
hash_pairs-Reordered depth h (swap k v l w ps) =
    ap (hash_pairs ps depth)
      (add_pair_swap h (hash_one k depth) (hash_one v depth) (hash_one l depth) (hash_one w depth))
hash_pairs-Reordered depth h (join r s) =
    hash_pairs-Reordered depth h r ∙ hash_pairs-Reordered depth h s

-- `hashcode` of a table, its error included, is the same in whatever order the table is traversed.
pub hashcode-Reordered :
    {ps qs : Pairs} → Reordered ps qs → hashcode (table ps) ≡ hashcode (table qs)
unfolding hashcode
hashcode-Reordered r = ap (scale 1) (hash_pairs-Reordered 1 (some 0) r)
