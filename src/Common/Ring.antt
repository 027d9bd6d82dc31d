-- ===== src/Common/Ring.antt =====
-- A ring of cells: an array as a function of the index, read from a start and going round at `cap`.
use native.Mathlib.Decide.{dec_lt}
use native.Mathlib.Nat.{mod-eq_of_lt, mod-eq-sub-mod}
use Prim.Native.Nat.{ℕ, zero, suc, ◌+◌, ◌-◌, ◌%◌, ◌≤◌, ◌<◌}
use mathlib.Core.Path.{◌≡◌, refl, ap}
use mathlib.Core.Logic.{◌≢◌}
use mathlib.Core.List.{List, [], ◌∷◌, ◌++◌}
use native.Mathlib.Omega.{arith}
use game_server.Common.Tests.{leb, ltb, if◌then◌else◌}
use game_server.Common.Lists.{length, update}

-- `if (++i >= cap) i = 0`
abbrev pub next_cell : ℕ → ℕ → ℕ
next_cell cap i = if leb cap (i + 1) then 0 else i + 1

-- the cell `n` steps after `h`, for `n < cap`
abbrev pub cell_after : ℕ → ℕ → ℕ → ℕ
cell_after cap h n = if ltb (h + n) cap then h + n else h + n - cap

-- One step round the ring, by remainder and by the code's test.
next_cell-mod :
    (cap h i : ℕ) → h < cap → i < cap → next_cell cap ((h + i) % cap) ≡ (h + (i + 1)) % cap
next_cell-mod cap h i hh hi = elim (dec_lt (h + i) cap) [
  | yes p ↦ elim (dec_lt (h + (i + 1)) cap) [
    | yes q ↦ ground (arith, mod-eq_of_lt p, mod-eq_of_lt q)
    | no q ↦ ground (
      arith,
      mod-eq_of_lt p,
      mod-eq-sub-mod {n = h + (i + 1)} {m = cap} (omega arith),
      mod-eq_of_lt {n = h + (i + 1) - cap} {m = cap} (omega arith),
    )
  ]
  | no p ↦ ground (
    arith,
    mod-eq-sub-mod {n = h + i} {m = cap} (omega arith),
    mod-eq_of_lt {n = h + i - cap} {m = cap} (omega arith),
    mod-eq-sub-mod {n = h + (i + 1)} {m = cap} (omega arith),
    mod-eq_of_lt {n = h + (i + 1) - cap} {m = cap} (omega arith),
  )
]

module _ {A : Type 0} where
  -- The copy loop of `expand_queue`: cells `i .. i + n - 1` of the new array, going round the old one.
  unfoldable pub copy_cells : (ℕ → A) → ℕ → ℕ → ℕ → ℕ → (ℕ → A) → ℕ → A
  copy_cells old head cap zero i new = new
  copy_cells old head cap (suc n) i new =
      copy_cells old head cap n (i + 1) (update new i (old ((head + i) % cap)))

  -- the `n` messages from cell `h` on
  abbrev pub window : (ℕ → A) → ℕ → ℕ → ℕ → List A
  window cells cap h zero = []
  window cells cap h (suc n) = cells h ∷ window cells cap (next_cell cap h) n

  pub length-window : (cells : ℕ → A) (cap h n : ℕ) → length (window cells cap h n) ≡ n
  length-window cells cap h zero = refl
  length-window cells cap h (suc n) = ap suc (length-window cells cap (next_cell cap h) n)

  -- A write to the cell just past a window extends the window by that message.
  pub window-update :
      (cells : ℕ → A) (cap h n i : ℕ) (m : A)
      → h < cap
      → n < cap
      → i ≡ cell_after cap h n
      → window (update cells i m) cap h (suc n) ≡ window cells cap h n ++ (m ∷ [])
  window-update cells cap h zero i m hh hn e = ground arith
  window-update cells cap h (suc n) i m hh hn e =
      let other : i ≢ h = ground arith in
      ground (arith, window-update cells cap (next_cell cap h) n i m)

  -- An array that holds the old cells from `h` on, in order, has the old window.
  pub window-copied :
      (old new : ℕ → A) (cap cap' h i n : ℕ)
      → ((j : ℕ) → j < i + n → new j ≡ old ((h + j) % cap))
      → h < cap
      → i + n ≤ cap
      → cap < cap'
      → window new cap' i n ≡ window old cap ((h + i) % cap) n
  window-copied old new cap cap' h i zero copied hh hi hc = refl
  window-copied old new cap cap' h i (suc n) copied hh hi hc =
      let step : next_cell cap' i ≡ i + 1 = ground arith in
      rw (step, copied i (omega arith), next_cell-mod cap h i hh (omega arith))
        (ap (◌∷◌ (old ((h + i) % cap))) (
          window-copied old new cap cap' h (i + 1) n (λ j lt. copied j (omega arith)) hh
            (omega arith) hc))

  -- The loop of `expand_queue` writes cell `j` once, with the message `j` places after `head`.
  pub copy_cells_lem :
      (old : ℕ → A) (head cap n i : ℕ) (new : ℕ → A) (j : ℕ)
      → copy_cells old head cap n i new j
        ≡ (if leb i j then (if ltb j (i + n) then old ((head + j) % cap) else new j) else new j)
  unfolding copy_cells
  copy_cells_lem old head cap zero i new j = ground arith
  copy_cells_lem old head cap (suc n) i new j =
      ground
        (arith, copy_cells_lem old head cap n (i + 1) (update new i (old ((head + i) % cap))) j)
