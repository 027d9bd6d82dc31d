-- ===== src/Tests/HashIds.antt =====
-- A table of three slots.
use game_server.Common.{ℕ, ◌<◌, ◌≡◌, refl, ◌⊎◌, true, none, some, ◌==◌, if◌then◌else◌, arith}
use game_server.HashId.{
  HashId, init, lookup, insert, remove, full, clear, find_slot, free_slot, grow_cap, holds,
}
use game_server.HashId.Chains.{IsTable}
use game_server.HashId.Init.{emptied, emptied-IsTable}
use game_server.HashId.Insert.{inserted, inserted-IsTable, insert_lem}
use game_server.HashId.Remove.{remove_lem}

abbrev fresh : HashId
fresh = emptied 16 3

init_run : init 3 ≡ some fresh
unfolding init grow_cap
init_run = refl

-- 17 goes to slot 2 and to bucket 1
abbrev one : HashId
one = inserted fresh 17 2

insert_run : insert fresh 17 ≡ some (2, one)
unfolding insert free_slot
insert_run = refl

one-IsTable : IsTable one
unfolding lookup find_slot
one-IsTable = inserted-IsTable fresh 17 2 (emptied-IsTable 16 3) refl (omega arith) refl

-- 33 is in bucket 1 too, and starts its search at slot 0
chain_run : lookup (inserted one 33 0) 17 ≡ some 2
unfolding lookup find_slot holds
chain_run = refl

clear_run : full (clear one) ≡ true
unfolding full clear
clear_run = refl

insert_lem_example :
    (c : ℕ) × (hi' : HashId) × (insert one 33 ≡ some (c, hi'))
    × (c < one.cap)
    × (one.id c ≡ none)
    × IsTable hi'
    × ((k : ℕ) → lookup hi' k ≡ (if k == 33 then some c else lookup one k))
unfolding lookup find_slot full holds
insert_lem_example = insert_lem one 33 one-IsTable refl refl (omega arith)

remove_lem_example :
    ((c : ℕ) × (hi' : HashId) × (remove one 17 ≡ (some c, hi'))
      × (lookup one 17 ≡ some c)
      × (hi'.id c ≡ none)
      × IsTable hi'
      × ((k : ℕ) → lookup hi' k ≡ (if k == 17 then none else lookup one k)))
    ⊎ (remove one 17 ≡ (none, one)) × (lookup one 17 ≡ none)
remove_lem_example = remove_lem one 17 one-IsTable
