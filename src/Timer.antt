-- ===== src/Timer.antt =====
-- skynet-dist/skynet-src/skynet_timer.c: the hierarchical timing wheel of the server.
-- The linked lists of nodes are lists, oldest first: `link` appends and `link_clear` empties.
pub mod Slots
pub mod Pending
pub mod Execute
pub mod Shift
pub mod Exact
pub mod Clock
use game_server.Common.{
  ℕ, zero, suc, ◌+◌, ◌-◌, ◌*◌, ◌/◌, ◌%◌, ◌^◌, Bool, true, false, Option, none, some, List, [], ◌∷◌,
  ◌++◌, ◌==◌, ltb, if◌then◌else◌, update,
}

-- `struct timer_node` with the `struct timer_event` behind it.
pub record Node : Type 0 where
  pub expire : ℕ
  pub handle : ℕ
  pub session : ℕ

-- `struct timer`; `near` has 256 lists, `levels` four rows of 64.
pub record Timer : Type 0 where
  pub near : ℕ → List Node
  pub levels : ℕ → ℕ → List Node
  pub time : ℕ
  pub starttime : ℕ
  pub current : ℕ
  pub current_point : ℕ

abbrev pub uint32 : ℕ → ℕ
uint32 n = n % 2 ^ 32

-- `x | (m - 1)` for `m` a power of two: the bits below `m` are set.
abbrev pub or_below : ℕ → ℕ → ℕ
or_below x m = x / m * m + (m - 1)

-- The list that `add_node` picks: one of `near`, or a row and a place of `t`.
pub data Slot : Type 0 where
  close : ℕ → Slot
  far : ℕ → ℕ → Slot

-- `for (i=0;i<3;i++) { if (same above the mask) break; mask <<= 6; }`
pub find_level : ℕ → ℕ → ℕ → ℕ → ℕ → ℕ
find_level zero i mask time current = i
find_level (suc n) i mask time current =
    let rest = find_level n (i + 1) (mask * 2 ^ 6) time current in
    if or_below time mask == or_below current mask then i else rest

-- The branch and the indices of `add_node`.
unfoldable pub slot : ℕ → ℕ → Slot
unfolding find_level
slot time current =
    if or_below time (2 ^ 8) == or_below current (2 ^ 8)
    then close (time % 2 ^ 8)
    else let i = find_level 3 0 (2 ^ 14) time current in far i (time / 2 ^ (8 + i * 6) % 2 ^ 6)

-- `link` at the end of one list.
pub link : Timer → Slot → Node → Timer
link T (close i) n = record T { near = update T.near i (T.near i ++ (n ∷ [])) }
link T (far l i) n = record T {
  levels = update T.levels l (update (T.levels l) i (T.levels l i ++ (n ∷ [])));
}

-- `add_node`
pub add_node : Timer → Node → Timer
add_node T n = link T (slot n.expire T.time) n

-- `timer_add`
pub timer_add : Timer → ℕ → ℕ → ℕ → Timer
timer_add T handle session time =
    add_node T (record { expire = uint32 (time + T.time); handle = handle; session = session })

-- The loop of `move_list`, over the list that `link_clear` returned.
pub add_all : Timer → List Node → Timer
add_all T [] = T
add_all T (n ∷ ns) = add_all (add_node T n) ns

-- `move_list`
pub move_list : Timer → ℕ → ℕ → Timer
move_list T level idx =
    add_all (record T { levels = update T.levels level (update (T.levels level) idx []) })
      (T.levels level idx)

-- The `while ((ct & (mask-1))==0)` of `timer_shift`: which list is moved. The loop can pass row 3
-- only at `ct = 0`, which is treated before; so four rounds are all, and `none` is a round more.
pub moved_list : ℕ → ℕ → ℕ → ℕ → ℕ → Option (Option (ℕ × ℕ))
moved_list zero ct mask time i = none
moved_list (suc fuel) ct mask time i =
    let rest = moved_list fuel ct (mask * 2 ^ 6) (time / 2 ^ 6) (i + 1) in
    if ct % mask == 0
    then (if time % 2 ^ 6 == 0 then rest else some (some (i, time % 2 ^ 6)))
    else some none

-- The list that `timer_shift` moves at the new time `ct`, if any.
pub due_list : ℕ → Option (Option (ℕ × ℕ))
unfolding moved_list
due_list ct = if ct == 0 then some (some (3, 0)) else moved_list 5 ct (2 ^ 8) (ct / 2 ^ 8) 0

-- `timer_shift`
pub timer_shift : Timer → Timer
timer_shift T =
    let ct = uint32 (T.time + 1) in
    let T' = record T { time = ct } in
    elim (due_list ct) [
      | none ↦ T'
      | some none ↦ T'
      | some (some (level, idx)) ↦ move_list T' level idx
    ]

-- `timer_execute` on fuel: the events in the order in which `dispatch_list` sends them; `none` is a
-- run that is not over.
pub timer_execute : ℕ → Timer → Option (List Node × Timer)
timer_execute zero T = none
timer_execute (suc fuel) T =
    let idx = T.time % 2 ^ 8 in
    let batch = T.near idx in
    let rest = timer_execute fuel (record T { near = update T.near idx [] }) in
    elim batch [
      | [] ↦ some ([], T)
      | n ∷ ns ↦ elim rest [ none ↦ none | some (more, T') ↦ some ((n ∷ ns) ++ more, T') ]
    ]

-- `timer_update`: what is due now, one step of time, what is due then.
pub timer_update : Timer → Option (List Node × Timer)
timer_update T = elim (timer_execute 2 T) [
  | none ↦ none
  | some (early, T1) ↦ elim (timer_execute 2 (timer_shift T1)) [
    | none ↦ none
    | some (late, T2) ↦ some (early ++ late, T2)
  ]
]

-- the loop of `skynet_updatetime`, `diff` rounds of `timer_update`
pub run_ticks : ℕ → Timer → Option (List Node × Timer)
run_ticks zero T = some ([], T)
run_ticks (suc n) T = elim (timer_update T) [
  | none ↦ none
  | some (sent, T1) ↦ elim (run_ticks n T1) [
    | none ↦ none
    | some (more, T2) ↦ some (sent ++ more, T2)
  ]
]

-- `skynet_updatetime` at a reading `cp` of the clock.
pub updatetime : ℕ → Timer → Option (List Node × Timer)
updatetime cp T =
    if cp == T.current_point
    then some ([], T)
    else if ltb cp T.current_point
    then some ([], record T { current_point = cp })
    else let diff = uint32 (cp - T.current_point) in
      run_ticks diff (record T { current_point = cp; current = (T.current + diff) % 2 ^ 64 })

-- `timer_create_timer` and `skynet_timer_init`, at the clocks' readings.
unfoldable pub timer_init : ℕ → ℕ → ℕ → Timer
timer_init starttime current point = record {
  near = λ _. [];
  levels = λ _ _. [];
  time = 0;
  starttime = starttime;
  current = current;
  current_point = point;
}
