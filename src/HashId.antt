-- ===== src/HashId.antt =====
-- skynet-dist/service-src/hashid.h: the table from socket ids to the slots of a gate's connections.
-- The array `id` is a function of the index, with `none` for -1; the chain of a bucket through `next`
-- is the list of its slots; that a free slot has no `next`, which the code asserts, is so in that view.
-- An id is not negative, and the sizes stay below 2^31.
pub mod Chains
pub mod Init
pub mod Insert
pub mod Remove
use game_server.Common.{
  ℕ, zero, suc, ◌+◌, ◌-◌, ◌*◌, ◌%◌, ◌^◌, Bool, false, Option, none, some, List, [], ◌∷◌, ltb, leb,
  ◌==◌, if◌then◌else◌, update,
}

-- `struct hashid`
pub record HashId : Type 0 where
  pub hashmod : ℕ
  pub cap : ℕ
  pub count : ℕ
  pub id : ℕ → Option ℕ
  pub hash : ℕ → List ℕ

-- `while (hashcap < max) hashcap *= 2;` on fuel
unfoldable pub grow_cap : ℕ → ℕ → ℕ → Option ℕ
grow_cap zero hashcap max = none
grow_cap (suc fuel) hashcap max =
    let rest = grow_cap fuel (hashcap * 2) max in if ltb hashcap max then rest else some hashcap

-- `hashid_init`
unfoldable pub init : ℕ → Option HashId
init max = elim (grow_cap (suc max) 16 max) [
  | none ↦ none
  | some hashcap ↦
      some (record { hashmod = hashcap - 1; cap = max; count = 0; id = λ _. none; hash = λ _. [] })
]

-- `id & hashmod`, since `hashmod + 1` is a power of two
abbrev pub bucket : HashId → ℕ → ℕ
bucket hi id = id % (hi.hashmod + 1)

-- `c->id == id`
unfoldable pub holds : HashId → ℕ → ℕ → Bool
holds hi id c = elim (hi.id c) [ none ↦ false | some k ↦ k == id ]

-- The walk of `hashid_lookup` along a chain: `none` is -1.
unfoldable pub find_slot : HashId → ℕ → List ℕ → Option ℕ
find_slot hi id [] = none
find_slot hi id (c ∷ cs) = let rest = find_slot hi id cs in if holds hi id c then some c else rest

-- `hashid_lookup`
unfoldable pub lookup : HashId → ℕ → Option ℕ
lookup hi id = find_slot hi id (hi.hash (bucket hi id))

-- The chain that `hashid_remove` leaves.
unfoldable pub unchain : HashId → ℕ → List ℕ → List ℕ
unchain hi id [] = []
unchain hi id (c ∷ cs) = let rest = unchain hi id cs in if holds hi id c then cs else c ∷ rest

-- `hashid_remove`
unfoldable pub remove : HashId → ℕ → Option ℕ × HashId
remove hi id = elim (find_slot hi id (hi.hash (bucket hi id))) [
  | none ↦ (none, hi)
  | some c ↦ (
    some c,
    record hi {
      count = hi.count - 1;
      id = update hi.id c none;
      hash = update hi.hash (bucket hi id) (unchain hi id (hi.hash (bucket hi id)));
    },
  )
]

-- The loop of `hashid_insert` from `i` on, with `n` rounds left: the first free slot. `i + id` is an
-- `int`: from 2^31 on it overflows, and `none` is the read at a negative index.
unfoldable pub free_slot : ℕ → ℕ → HashId → ℕ → Option ℕ
free_slot zero i hi id = none
free_slot (suc n) i hi id =
    let rest = free_slot n (i + 1) hi id in
    let found : Option ℕ = elim (hi.id ((i + id) % hi.cap)) [
      | none ↦ some ((i + id) % hi.cap)
      | some k ↦ rest
    ] in
    if leb (2 ^ 31) (i + id) then none else found

-- `hashid_insert`; `none` is the failed assertion that a slot is free, or the overflow above.
unfoldable pub insert : HashId → ℕ → Option (ℕ × HashId)
insert hi id = elim (free_slot hi.cap 0 hi id) [
  | none ↦ none
  | some c ↦ some (
    c,
    record hi {
      count = hi.count + 1;
      id = update hi.id c (some id);
      hash = update hi.hash (bucket hi id) (c ∷ hi.hash (bucket hi id));
    },
  )
]

-- `hashid_full`
unfoldable pub full : HashId → Bool
full hi = hi.count == hi.cap

-- `hashid_clear`
unfoldable pub clear : HashId → HashId
clear hi = record { hashmod = 1; cap = 0; count = 0; id = λ _. none; hash = λ _. [] }
