-- ===== src/Seri/Pack/Refuses.antt =====
-- What the packer refuses: too deep a nest of tables, and values of another type, wherever they are.
use game_server.Common.{
  ℕ, suc, ◌<◌, ◌≡◌, refl, ◌⊎◌, inl, inr, Bool, true, false, Option, none, some, List, [], ◌∷◌,
  if◌then◌else◌, arith,
}
use game_server.Seri.{
  Value, nil, boolean, integer, real, pointer, string, table, paired, other, Items, no_items, item,
  Pairs, no_pairs, pair, count, combine_type, type_table,
}
use game_server.Seri.Blocks.{WriteBlock, wb_init, wb_push}
use game_server.Seri.Pack.{
  max_depth, is_item_key, guarded, wb_array_size, pack_one, pack_items, pack_pairs, pack_from,
  luaseri_pack,
}

abbrev mutual
  -- At this depth the value holds one that is too deep, or that cannot be packed.
  pub Refused : ℕ → Value → Type 0
  Refused d nil = max_depth < d
  Refused d (boolean v) = max_depth < d
  Refused d (integer v) = max_depth < d
  Refused d (real v) = max_depth < d
  Refused d (pointer v) = max_depth < d
  Refused d (string str) = max_depth < d
  Refused d (table vs ps) =
      (max_depth < d) ⊎ (RefusedItems (suc d) vs ⊎ RefusedPairs (suc d) (count vs) ps)
  Refused d (paired ps) = (max_depth < d) ⊎ RefusedPairs (suc d) 0 ps
  Refused d other = Unit

  pub RefusedItems : ℕ → Items → Type 0
  RefusedItems d no_items = ⊥
  RefusedItems d (item v vs) = Refused d v ⊎ RefusedItems d vs

  -- The pairs that the packer passes over do not count.
  pub RefusedPairs : ℕ → ℕ → Pairs → Type 0
  RefusedPairs d n no_pairs = ⊥
  RefusedPairs d n (pair k v ps) =
      ((is_item_key n k ≡ false) × (Refused d k ⊎ Refused d v)) ⊎ RefusedPairs d n ps

guarded-none : (d : ℕ) (r : Option WriteBlock) → r ≡ none → guarded d r ≡ none
guarded-none d r e = ground arith

guarded_deep : (d : ℕ) (r : Option WriteBlock) → max_depth < d → guarded d r ≡ none
guarded_deep d r h = ground arith

-- `none` runs through what comes after it, whatever that is.
none_first :
    (r : Option WriteBlock) (f : WriteBlock → Option WriteBlock)
    → r ≡ none
    → elim r [ none ↦ none | some b ↦ f b ] ≡ none
none_first r f e = rw e refl

none_second :
    (r : Option WriteBlock) (f : WriteBlock → Option WriteBlock)
    → ((b : WriteBlock) → f b ≡ none)
    → elim r [ none ↦ none | some b ↦ f b ] ≡ none
none_second none f k = refl
none_second (some b) f k = k b

if-none : (t : Bool) {r s : Option WriteBlock} → r ≡ none → s ≡ none → (if t then r else s) ≡ none
if-none true p q = p
if-none false p q = q

mutual
  unfolding pack_one

  pub pack_one-Refused : (d : ℕ) (v : Value) (b : WriteBlock) → Refused d v → pack_one d v b ≡ none
  pack_one-Refused d nil b h = guarded_deep d _ h
  pack_one-Refused d (boolean v) b h = guarded_deep d _ h
  pack_one-Refused d (integer v) b h = guarded_deep d _ h
  pack_one-Refused d (real v) b h = guarded_deep d _ h
  pack_one-Refused d (pointer v) b h = guarded_deep d _ h
  pack_one-Refused d (string str) b h = guarded_deep d _ h
  pack_one-Refused d (table vs ps) b (inl h) = guarded_deep d _ h
  pack_one-Refused d (table vs ps) b (inr (inl h)) = guarded-none d _ (
      none_first _ (pack_pairs (suc d) (count vs) ps)
        (pack_items-Refused (suc d) vs (wb_array_size (count vs) b) h))
  pack_one-Refused d (table vs ps) b (inr (inr h)) = guarded-none d _ (
      none_second _ (pack_pairs (suc d) (count vs) ps)
        (λ b'. pack_pairs-Refused (suc d) (count vs) ps b' h))
  pack_one-Refused d (paired ps) b (inl h) = guarded_deep d _ h
  pack_one-Refused d (paired ps) b (inr h) =
      guarded-none d _
        (pack_pairs-Refused (suc d) 0 ps (wb_push (combine_type type_table 0 ∷ []) b) h)
  pack_one-Refused d other b h = refl

  pack_items-Refused :
      (d : ℕ) (vs : Items) (b : WriteBlock) → RefusedItems d vs → pack_items d vs b ≡ none
  pack_items-Refused d no_items b h = elim h [ ]
  pack_items-Refused d (item v vs) b (inl h) =
      none_first _ (pack_items d vs) (pack_one-Refused d v b h)
  pack_items-Refused d (item v vs) b (inr h) =
      none_second _ (pack_items d vs) (λ b'. pack_items-Refused d vs b' h)

  pack_pairs-Refused :
      (d n : ℕ) (ps : Pairs) (b : WriteBlock) → RefusedPairs d n ps → pack_pairs d n ps b ≡ none
  pack_pairs-Refused d n no_pairs b h = elim h [ ]
  pack_pairs-Refused d n (pair k v ps) b (inl (f, inl h)) =
      rw f (none_first _ _ (pack_one-Refused d k b h))
  pack_pairs-Refused d n (pair k v ps) b (inl (f, inr h)) =
      rw f (none_second _ _ (λ b1. none_first _ (pack_pairs d n ps) (pack_one-Refused d v b1 h)))
  pack_pairs-Refused d n (pair k v ps) b (inr h) =
      if-none (is_item_key n k) (pack_pairs-Refused d n ps b h) (
        none_second (pack_one d k b) _
          (λ b1. none_second (pack_one d v b1) _ (λ b2. pack_pairs-Refused d n ps b2 h)))

abbrev pub SomeRefused : List Value → Type 0
SomeRefused [] = ⊥
SomeRefused (v ∷ vs) = Refused 0 v ⊎ SomeRefused vs

pack_from-none : (vs : List Value) (b : WriteBlock) → SomeRefused vs → pack_from vs b ≡ none
unfolding pack_from
pack_from-none [] b h = elim h [ ]
pack_from-none (v ∷ vs) b (inl h) = none_first _ (pack_from vs) (pack_one-Refused 0 v b h)
pack_from-none (v ∷ vs) b (inr h) = none_second _ (pack_from vs) (λ b'. pack_from-none vs b' h)

-- If one of the values holds, at any depth and not in a pair that is passed over, a value more than 32
-- tables deep or of a type that cannot be packed, then `luaseri_pack` ends in an error.
pub luaseri_pack-none : (vs : List Value) → SomeRefused vs → luaseri_pack vs ≡ none
unfolding luaseri_pack
luaseri_pack-none vs h = rw (luaseri_pack, pack_from-none vs wb_init h) refl
