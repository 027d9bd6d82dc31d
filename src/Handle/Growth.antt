-- ===== src/Handle/Growth.antt =====
-- The search for a free slot in `skynet_handle_register`, and the growth of a full table.
use mathlib.Core.Path.{subst}
use native.Mathlib.Decide.{ℕ_discrete}
use native.Mathlib.Nat.{
  mod-lt, mod-eq_of_lt, mod-add-mod, add-mod-mod, add-mod_right, mod_self, zero-mod,
}
use game_server.Common.{
  ℕ, zero, suc, ◌+◌, ◌-◌, ◌*◌, ◌%◌, ◌^◌, ◌≤◌, ◌<◌, ◌≡◌, ◌≢◌, inl, inr, refl, sym, ap, ◌∙◌,
  Bool-cases, Option, none, some, Option-cases, ltb, leb, ◌==◌, if◌then◌else◌, update, arith,
}
use game_server.Handle.{Context, Storage, find_free, rehash, grow, grab}
use game_server.Handle.Slots.{IsValid, size_pos, size_le, size-mod, double-IsSize, mod-double}

-- A handle that the search finds is small, and its slot is free.
pub find_free-some :
    (n i : ℕ) (s : Storage) (h : ℕ)
    → find_free n i s ≡ some h
    → (h < 2 ^ 24) × (s.slot (h % s.slot_size) ≡ none)
unfolding find_free
find_free-some zero i s h e = cc
find_free-some (suc n) i s h e =
    let handle = (i + s.handle_index) % 2 ^ 32 % 2 ^ 24 in
    elim (Option-cases (s.slot (handle % s.slot_size))) [
      | inl free ↦ let q : handle ≡ h = ground arith in rw (← q) (omega arith, free)
      | inr (c, taken) ↦ find_free-some n (i + 1) s h (ground arith)
    ]

-- A search that finds nothing has seen its slots taken.
find_free-none :
    (n i : ℕ) (s : Storage) (j : ℕ)
    → find_free n i s ≡ none
    → i ≤ j
    → j < i + n
    → (c : Context) × (s.slot ((j + s.handle_index) % 2 ^ 32 % 2 ^ 24 % s.slot_size) ≡ some c)
unfolding find_free
find_free-none zero i s j e lo hi = absurd (omega arith)
find_free-none (suc n) i s j e lo hi =
    elim (Option-cases (s.slot ((i + s.handle_index) % 2 ^ 32 % 2 ^ 24 % s.slot_size))) [
      | inl free ↦ absurd (ground arith)
      | inr (c, taken) ↦ elim (ℕ_discrete i j) [
        | yes q ↦ (c, rw (← q) taken)
        | no q ↦ find_free-none n (i + 1) s j (ground arith) (omega arith) (omega arith)
      ]
    ]

-- Going once round from any start, a residue is met.
residue_met : (n x r : ℕ) → r < n → (j : ℕ) × (j < n) × ((j + x) % n ≡ r)
residue_met n x r h = (
  (r + (n - x % n)) % n,
  mod-lt _ (omega arith),
  mod-add-mod (r + (n - x % n)) n x
      ∙ sym (add-mod-mod (r + (n - x % n)) x n)
      ∙ around (x % n) (mod-lt x (omega arith)),
)
  where
    around : (y : ℕ) → y < n → (r + (n - y) + y) % n ≡ r
    around y lt =
        let q : r + (n - y) + y ≡ r + n = omega arith in rw q (add-mod_right r n ∙ mod-eq_of_lt h)

-- The slots `0 .. slot_size - 1` are all met: then a search in vain means a full table.
pub find_free_full :
    (s : Storage) (r : ℕ)
    → IsValid s
    → find_free s.slot_size 0 s ≡ none
    → r < s.slot_size
    → (c : Context) × (s.slot r ≡ some c)
find_free_full s r v e h =
    let n = s.slot_size in
    let (j, lt, met) = residue_met n s.handle_index r h in
    let (c, taken) = find_free-none n 0 s j e (omega arith) (omega arith) in
    let small : (j + s.handle_index) % 2 ^ 32 ≡ j + s.handle_index =
      omega (arith, size_le n v.size, v.index) in
    (
      c,
      subst (λ k. s.slot k ≡ some c)
          (ap (λ k. k % 2 ^ 24 % n) small ∙ size-mod n (j + s.handle_index) v.size ∙ met) taken,
    )

-- What the rehash has put in slot `j` of the new table once it is past the old slots below `i`.
abbrev moved : (ℕ → Option Context) → ℕ → ℕ → ℕ → Option Context
moved old n i j =
    if ltb (j % n) i
    then elim (old (j % n)) [
      | none ↦ none
      | some c ↦ if c.handle % (n * 2) == j then some c else none
    ]
    else none

rehash_empty :
    (i n : ℕ) (old new : ℕ → Option Context) (c : Context)
    → c.handle % n ≡ i
    → ((j : ℕ) → new j ≡ moved old n i j)
    → new (c.handle % (n * 2)) ≡ none
rehash_empty i n old new c m inv = ground (arith, inv (c.handle % (n * 2)), mod-double n c.handle)

rehash_step :
    (i n : ℕ) (old new : ℕ → Option Context) (c : Context)
    → old i ≡ some c
    → c.handle % n ≡ i
    → ((j : ℕ) → new j ≡ moved old n i j)
    → (j : ℕ) → update new (c.handle % (n * 2)) (some c) j ≡ moved old n (i + 1) j
rehash_step i n old new c e m inv j = elim (ℕ_discrete (j % n) i) [
  | yes q ↦ let o : old (j % n) ≡ some c = rw q e in ground (arith, inv j, mod-double n c.handle)
  | no q ↦ ground (arith, inv j, mod-double n c.handle)
]

rehash_runs :
    (r i size : ℕ) (old new : ℕ → Option Context) (c : Context)
    → old i ≡ some c
    → new (c.handle % size) ≡ none
    → rehash (suc r) i old size new
      ≡ rehash r (i + 1) old size (update new (c.handle % size) (some c))
unfolding rehash
rehash_runs r i size old new c e f = rw (e, rehash, f)

-- The rehash of a full table meets no slot twice.
rehash_lem :
    (r i n : ℕ) (old new : ℕ → Option Context)
    → 0 < n
    → r + i ≡ n
    → ((j : ℕ) → j < n → (c : Context) × (old j ≡ some c) × (c.handle % n ≡ j))
    → ((j : ℕ) → new j ≡ moved old n i j)
    → (out : ℕ → Option Context) × (rehash r i old (n * 2) new ≡ some out)
      × ((j : ℕ) → out j ≡ moved old n n j)
unfolding rehash
rehash_lem zero i n old new pos sum full inv =
    let q : i ≡ n = omega arith in (new, refl, rw q at inv)
rehash_lem (suc r) i n old new pos sum full inv =
    let (c, e, m) = full i (omega arith) in
    let (out, run, spec) =
      rehash_lem r (i + 1) n old (update new (c.handle % (n * 2)) (some c)) pos (omega arith) full
        (rehash_step i n old new c e m inv) in
    (out, rehash_runs r i (n * 2) old new c e (rehash_empty i n old new c m inv) ∙ run, spec)

-- A table that has grown: twice the slots, every lookup as before, and free slots.
pub record Grown (s s' : Storage) : Type 0 where
  pub returns : grow s ≡ some s'
  pub valid : IsValid s'
  pub lookups : (h : ℕ) → grab h s' ≡ grab h s
  pub room : find_free s'.slot_size 0 s' ≢ none
  pub same_harbor : s'.harbor ≡ s.harbor

grow_runs :
    (s : Storage) (out : ℕ → Option Context)
    → s.slot_size * 2 ≤ 2 ^ 24
    → rehash s.slot_size 0 s.slot (s.slot_size * 2) (λ _. none) ≡ some out
    → grow s ≡ some (record s { slot = out; slot_size = s.slot_size * 2 })
unfolding grow
grow_runs s out le e = elim (Bool-cases (leb (s.slot_size * 2 - 1) (2 ^ 24 - 1))) [
  | inl t ↦ rw (t, grow, e)
  | inr f ↦ absurd (ground arith)
]

moved-some :
    (old : ℕ → Option Context) (n j : ℕ) (c : Context)
    → moved old n n j ≡ some c
    → (old (j % n) ≡ some c) × (c.handle % (n * 2) ≡ j)
moved-some old n j c e = ground arith

module _ (s : Storage) (v : IsValid s) (out : ℕ → Option Context)
    (spec : (j : ℕ) → out j ≡ moved s.slot s.slot_size s.slot_size j) where
  abbrev bigger : Storage
  bigger = record s { slot = out; slot_size = s.slot_size * 2 }

  bigger-IsValid : s.slot_size * 2 ≤ 2 ^ 24 → IsValid bigger
  bigger-IsValid le = record {
    size = double-IsSize s.slot_size v.size le;
    harbor = v.harbor;
    index = v.index;
    placed = λ j c e.
        let (o, m) = moved-some s.slot s.slot_size j c (sym (spec j) ∙ e) in
        let (_, _, hb) = v.placed (j % s.slot_size) c o in
        (
          subst (λ k. k < s.slot_size * 2) m
              (mod-lt c.handle (omega (arith, size_pos s.slot_size v.size))),
          m,
          hb,
        );
  }

  grab-bigger : (h : ℕ) → grab h bigger ≡ grab h s
  unfolding grab
  grab-bigger h =
      let n = s.slot_size in
      let lt = mod-lt h (size_pos n v.size) in
      let o : s.slot (h % (n * 2) % n) ≡ s.slot (h % n) = ap s.slot (mod-double n h) in
      ground (arith, spec (h % (n * 2)), mod-double n h)

  bigger_room : IsValid bigger → find_free (s.slot_size * 2) 0 bigger ≢ none
  bigger_room v' e =
      let n = s.slot_size in
      let pos = size_pos n v.size in
      let (c, at_0) = find_free_full bigger 0 v' e (omega arith) in
      let (d, at_n) = find_free_full bigger n v' e (omega arith) in
      let (o0, m0) = moved-some s.slot n 0 c (sym (spec 0) ∙ at_0) in
      let (on, mn) = moved-some s.slot n n d (sym (spec n) ∙ at_n) in
      let z : n % n ≡ 0 % n = mod_self n ∙ sym (zero-mod n) in
      let same_slot : some c ≡ some d = sym o0 ∙ ap s.slot (sym z) ∙ on in
      let same_handle : c.handle ≡ d.handle = ground arith in
      omega (arith, sym m0 ∙ ap (λ h. h % (n * 2)) same_handle ∙ mn)

-- A full table that may grow does.
pub grow_lem :
    (s : Storage)
    → IsValid s
    → find_free s.slot_size 0 s ≡ none
    → s.slot_size * 2 ≤ 2 ^ 24
    → (s' : Storage) × Grown s s'
grow_lem s v e le =
    let n = s.slot_size in
    let (out, run, spec) =
      rehash_lem n 0 n s.slot (λ _. none) (size_pos n v.size) (omega arith)
        (λ j lt. let (c, o) = find_free_full s j v e lt in (c, o, (v.placed j c o).1))
        (λ j. ground arith) in
    let v' = bigger-IsValid s v out spec le in
    (
      bigger s v out spec,
      record {
        returns = grow_runs s out le run;
        valid = v';
        lookups = grab-bigger s v out spec;
        room = bigger_room s v out spec v';
        same_harbor = refl;
      },
    )
