-- ===== src/Tests/Handles.antt =====
-- The handle table and the names on small inputs.
use game_server.Common.{
  ◌-◌, ℕ, ◌*◌, ◌^◌, ◌≤◌, ◌≡◌, ◌≢◌, ◌⊎◌, inr, refl, false, none, some, List, [], ◌∷◌, arith,
}
use game_server.Handle.{
  Storage, HandleName, init, find_free, register, grab, retire, findname, namehandle, strcmp,
}
use game_server.Handle.Slots.{IsValid, init-IsValid, retire_lem}
use game_server.Handle.Register.{Claimed, register_lem}
use game_server.Handle.Wrap.{restarts, register-restarts}
use game_server.Handle.Names.{IsSorted, find_name}
use game_server.Handle.Search.{Named, or_zero, findname_lem, namehandle_lem}

abbrev start : Storage
start = init 2

start-IsValid : IsValid start
start-IsValid = init-IsValid 2

-- the names "ab" and "b"
abbrev names : List HandleName
names = record { name = 97 ∷ 98 ∷ []; handle = 5 } ∷ record { name = 98 ∷ []; handle = 6 } ∷ []

abbrev named : Storage
named = record start { name = names }

names-IsSorted : IsSorted names
unfolding strcmp
names-IsSorted = ((refl, tt), (tt, tt))

start_room : (find_free start.slot_size 0 start ≢ none) ⊎ (start.slot_size * 2 ≤ 2 ^ 24)
unfolding init
start_room = inr (omega arith)

register_lem_example : (handle : ℕ) × (s' : Storage) × Claimed 2 77 start handle s'
register_lem_example = register_lem 77 start start-IsValid start_room

retire_lem_example :
    let (c, s') = retire 5 start in
    (c ≡ grab 5 start)
    × IsValid s'
    × (grab 5 s' ≡ none)
    × ((h : ℕ) → h ≢ 5 → grab h s' ≡ grab h start)
retire_lem_example = retire_lem 5 start start-IsValid

-- a node of harbor 0, after `2 ^ 24 - 1` services
register-restarts_example :
    (s : Storage) × (s' : Storage) × (restarts 77 (2 ^ 24 - 1) (init 0) ≡ some s)
    × (register 1 78 s ≡ some (0, s'))
register-restarts_example = register-restarts 0 (2 ^ 24 - 1) 77 78

findname_lem_example : findname (98 ∷ []) named ≡ some (or_zero (find_name (98 ∷ []) names))
findname_lem_example = findname_lem (98 ∷ []) named names-IsSorted

namehandle_lem_example :
    ((h : ℕ) × (find_name (97 ∷ []) names ≡ some h)
      × (namehandle 9 (97 ∷ []) named ≡ some (false, named)))
    ⊎ ((find_name (97 ∷ []) names ≡ none) × ((s' : Storage) × Named 9 (97 ∷ []) named s'))
unfolding init
namehandle_lem_example = namehandle_lem 9 (97 ∷ []) named names-IsSorted (omega arith)

first_claim :
    Claimed 2 77 start
      (register_lem 77 start start-IsValid start_room).0
      (register_lem 77 start start-IsValid start_room).1
first_claim = (register_lem 77 start start-IsValid start_room).2
