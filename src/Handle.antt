-- ===== src/Handle.antt =====
-- skynet-dist/skynet-src/skynet_handle.c: the table from handles to services, and their names.
-- A slot holds the address of a service and its handle, which the code keeps in the service:
-- `skynet_context_new` stores there what `skynet_handle_register` returned, after the lock has been let
-- go, so that another thread can find the service with the handle 0 for a moment. Here registering and
-- storing are one step.
pub mod Slots
pub mod Growth
pub mod Register
pub mod Names
pub mod Search
pub mod Wrap
use game_server.Common.{
  ℕ, zero, suc, ◌+◌, ◌-◌, ◌*◌, ◌/◌, ◌%◌, ◌^◌, ◌≤◌, Bool, true, false, Option, none, some, List, [],
  ◌∷◌, ◌++◌, length, take, drop, ltb, leb, ◌==◌, if◌then◌else◌, update,
}

-- `HANDLE_MASK` is `2 ^ 24 - 1`: `x & HANDLE_MASK` is `x % handle_space`.
abbrev pub handle_space : ℕ
handle_space = 2 ^ 24

-- A registered service: its address and its handle.
pub record Context : Type 0 where
  pub address : ℕ
  pub handle : ℕ

abbrev pub Text : Type 0
Text = List ℕ

-- `struct handle_name`
pub record HandleName : Type 0 where
  pub name : Text
  pub handle : ℕ

-- `struct handle_storage`; `name` is the first `name_count` entries of the array.
pub record Storage : Type 0 where
  pub harbor : ℕ
  pub handle_index : ℕ
  pub slot_size : ℕ
  pub slot : ℕ → Option Context
  pub name_cap : ℕ
  pub name : List HandleName

-- `skynet_handle_init`
unfoldable pub init : ℕ → Storage
init harbor = record {
  harbor = harbor % 2 ^ 8 * 2 ^ 24;
  handle_index = 1;
  slot_size = 4;
  slot = λ _. none;
  name_cap = 2;
  name = [];
}

-- The inner loop of `skynet_handle_register` from `i` on, with `n` rounds left: the free handle that
-- it finds.
pub find_free : ℕ → ℕ → Storage → Option ℕ
find_free zero i s = none
find_free (suc n) i s =
    let handle = (i + s.handle_index) % 2 ^ 32 % handle_space in
    let rest = find_free n (i + 1) s in
    elim (s.slot (handle % s.slot_size)) [ none ↦ some handle | some c ↦ rest ]

-- The rehash loop over the old slots `i .. i + n - 1`. `none` is the failed assertion that the new
-- slot is empty, or a read of the handle of an empty slot.
pub rehash : ℕ → ℕ → (ℕ → Option Context) → ℕ → (ℕ → Option Context) → Option (ℕ → Option Context)
rehash zero i old size new = some new
rehash (suc n) i old size new = elim (old i) [
  | none ↦ none
  | some c ↦
      let rest = rehash n (i + 1) old size (update new (c.handle % size) (some c)) in
      elim (new (c.handle % size)) [ none ↦ rest | some d ↦ none ]
]

-- The growth of the table: the assertion on the size, and the rehash.
pub grow : Storage → Option Storage
unfolding rehash
grow s =
    if leb (s.slot_size * 2 - 1) (handle_space - 1)
    then elim (rehash s.slot_size 0 s.slot (s.slot_size * 2) (λ _. none)) [
      | none ↦ none
      | some new ↦ some (record s { slot = new; slot_size = s.slot_size * 2 })
    ]
    else none

-- A free handle is given out: the slot is filled, the index moves on, the harbor's bits are set. The
-- harbor is a multiple of `2 ^ 24`, so `|=` is a sum.
pub occupy : ℕ → ℕ → Storage → ℕ × Storage
occupy address handle s = (
  handle + s.harbor,
  record s {
    slot =
        update s.slot (handle % s.slot_size)
          (some (record { address = address; handle = handle + s.harbor }));
    handle_index = handle + 1;
  },
)

-- `skynet_handle_register` on fuel for its outer loop: the handle and the table. `none` is a failed
-- assertion, or a run that is not over.
pub register : ℕ → ℕ → Storage → Option (ℕ × Storage)
register zero address s = none
register (suc fuel) address s =
    let grown : Option (ℕ × Storage) = elim (grow s) [
      | none ↦ none
      | some s' ↦ register fuel address s'
    ] in
    elim (find_free s.slot_size 0 s) [ some handle ↦ some (occupy address handle s) | none ↦ grown ]

-- `skynet_handle_grab`: the service whose handle it is.
pub grab : ℕ → Storage → Option Context
grab handle s = elim (s.slot (handle % s.slot_size)) [
  | none ↦ none
  | some c ↦ if c.handle == handle then some c else none
]

-- The compaction loop over the names in `skynet_handle_retire`.
pub drop_names : ℕ → List HandleName → List HandleName
drop_names handle [] = []
drop_names handle (n ∷ ns) =
    let rest = drop_names handle ns in if n.handle == handle then rest else n ∷ rest

-- `skynet_handle_retire`: the service that is then released, if the handle is in use.
pub retire : ℕ → Storage → Option Context × Storage
retire handle s = elim (grab handle s) [
  | none ↦ (none, s)
  | some c ↦ (
    some c,
    record s { slot = update s.slot (handle % s.slot_size) none; name = drop_names handle s.name },
  )
]

-- `strcmp` on the bytes of two texts.
pub data Order : Type 0 where
  before same after : Order

unfoldable pub strcmp : Text → Text → Order
strcmp [] [] = same
strcmp [] (b ∷ bs) = before
strcmp (a ∷ xs) [] = after
strcmp (a ∷ xs) (b ∷ bs) =
    let rest = strcmp xs bs in if a == b then rest else (if ltb a b then before else after)

-- the entry at an index of the name array
pub name_at : List HandleName → ℕ → Option HandleName
name_at [] i = none
name_at (n ∷ ns) zero = some n
name_at (n ∷ ns) (suc i) = name_at ns i

-- What the binary search of `skynet_handle_findname` and `_insert_name` ends with: an entry of that
-- name, or the index `begin` where one would stand.
pub data Found : Type 0 where
  hit : ℕ → Found
  miss : ℕ → Found

-- The search on fuel between `begin` and `end + 1`, which is `stop` here, since `end` can be -1.
-- `none` is a read out of range, or a run that is not over.
pub search_name : ℕ → List HandleName → Text → ℕ → ℕ → Option Found
search_name zero names name begin stop = none
search_name (suc fuel) names name begin stop =
    let mid = (begin + (stop - 1)) / 2 in
    let right = search_name fuel names name (mid + 1) stop in
    let left = search_name fuel names name begin mid in
    if ltb begin stop
    then elim (name_at names mid) [
      | none ↦ none
      | some n ↦ elim (strcmp n.name name) [
        | same ↦ some (hit n.handle)
        | before ↦ right
        | after ↦ left
      ]
    ]
    else some (miss begin)

-- `skynet_handle_findname`: 0 for an unknown name.
pub findname : Text → Storage → Option ℕ
findname name s = elim (search_name (suc (length s.name)) s.name name 0 (length s.name)) [
  | none ↦ none
  | some (hit handle) ↦ some handle
  | some (miss begin) ↦ some 0
]

-- `_insert_name_before`: the entry goes before the one at the index; a full array doubles, within
-- `MAX_SLOT_SIZE`. `none` is the failed assertion.
pub insert_name_before : Text → ℕ → ℕ → Storage → Option Storage
insert_name_before name handle at s =
    let names = take at s.name ++ (record { name = name; handle = handle } ∷ drop at s.name) in
    if leb s.name_cap (length s.name)
    then (if leb (s.name_cap * 2) (2 ^ 30)
        then some (record s { name = names; name_cap = s.name_cap * 2 })
        else none)
    else some (record s { name = names })

-- `skynet_handle_namehandle`: whether the name was free, and the table.
pub namehandle : ℕ → Text → Storage → Option (Bool × Storage)
namehandle handle name s = elim (search_name (suc (length s.name)) s.name name 0 (length s.name)) [
  | none ↦ none
  | some (hit handle) ↦ some (false, s)
  | some (miss begin) ↦ elim (insert_name_before name handle begin s) [
    | none ↦ none
    | some s' ↦ some (true, s')
  ]
]
