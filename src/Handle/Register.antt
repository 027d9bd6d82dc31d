-- ===== src/Handle/Register.antt =====
-- `skynet_handle_register`: what a registration does to the lookups.
use native.Mathlib.Nat.{mod-lt}
use game_server.Common.{
  ℕ, suc, ◌+◌, ◌/◌, ◌*◌, ◌%◌, ◌^◌, ◌≤◌, ◌<◌, ◌≡◌, ◌≢◌, ◌⊎◌, inl, inr, sym, ◌∙◌, none, some,
  Option-cases, arith,
}
use game_server.Handle.{Storage, find_free, grow, occupy, register, grab}
use game_server.Handle.Growth.{grow_lem, find_free-some}
use game_server.Handle.Slots.{IsValid, size_pos, mod-harbor}

-- What `skynet_handle_register` did when it returned: the handle is one that was not in use, with this node's harbor in its
-- high byte, under which the new service, and no other, is found.
pub record Claimed (fuel address : ℕ) (s : Storage) (handle : ℕ) (s' : Storage) : Type 0 where
  pub returns : register fuel address s ≡ some (handle, s')
  pub fresh : grab handle s ≡ none
  pub local_handle : handle / 2 ^ 24 * 2 ^ 24 ≡ s.harbor
  pub found : grab handle s' ≡ some (record { address = address; handle = handle })
  pub others : (h : ℕ) → h ≢ handle → grab h s' ≡ grab h s
  pub valid : IsValid s'

module _ (address : ℕ) (s : Storage) (v : IsValid s) (h : ℕ)
    (e : find_free s.slot_size 0 s ≡ some h) where
  free_slot : (h < 2 ^ 24) × (s.slot (h % s.slot_size) ≡ none)
  free_slot = find_free-some s.slot_size 0 s h e

  occupied-IsValid : IsValid (occupy address h s).1
  unfolding occupy
  occupied-IsValid = record {
    size = v.size;
    harbor = v.harbor;
    index = omega (arith, free_slot);
    placed = λ i c q.
        let m = mod-harbor s.slot_size h s.harbor v.size v.harbor in
        let lt = mod-lt h (size_pos s.slot_size v.size) in
        let hb : (h + s.harbor) / 2 ^ 24 * 2 ^ 24 ≡ s.harbor =
          omega (arith, free_slot.0, v.harbor) in
        ground (arith, v.placed i c);
  }

  grab-occupied_self :
      grab (h + s.harbor) (occupy address h s).1
      ≡ some (record { address = address; handle = h + s.harbor })
  unfolding grab occupy
  grab-occupied_self = let m = mod-harbor s.slot_size h s.harbor v.size v.harbor in ground arith

  grab-occupied : (k : ℕ) → k ≢ h + s.harbor → grab k (occupy address h s).1 ≡ grab k s
  unfolding grab occupy
  grab-occupied k ne = let m = free_slot.1 in ground arith

  grab_fresh : grab (h + s.harbor) s ≡ none
  unfolding grab
  grab_fresh = rw (mod-harbor s.slot_size h s.harbor v.size v.harbor, grab, free_slot.1)

  register_found : (fuel : ℕ) → register (suc fuel) address s ≡ some (occupy address h s)
  unfolding register
  register_found fuel = rw (e, register)

register_grown :
    (fuel address : ℕ) (s s' : Storage)
    → find_free s.slot_size 0 s ≡ none
    → grow s ≡ some s'
    → register (suc fuel) address s ≡ register fuel address s'
unfolding register
register_grown fuel address s s' e f = rw (e, register, f)

register_stuck :
    (fuel address : ℕ) (s : Storage)
    → find_free s.slot_size 0 s ≡ none
    → grow s ≡ none
    → register (suc fuel) address s ≡ none
unfolding register
register_stuck fuel address s e f = rw (e, register, f)

-- Registration where a slot is free.
registered_free :
    (fuel address : ℕ) (s : Storage)
    → IsValid s
    → (h : ℕ) → find_free s.slot_size 0 s ≡ some h
    → (handle : ℕ) × (s' : Storage) × Claimed (suc fuel) address s handle s'
unfolding occupy
registered_free fuel address s v h e = (
  h + s.harbor,
  (occupy address h s).1,
  record {
    returns = register_found address s v h e fuel;
    fresh = grab_fresh address s v h e;
    local_handle = omega (arith, v.harbor, free_slot address s v h e);
    found = grab-occupied_self address s v h e;
    others = grab-occupied address s v h e;
    valid = occupied-IsValid address s v h e;
  },
)

-- `skynet_handle_register` on a valid table: unless the table is full and has all `2 ^ 24` slots, two
-- rounds of its loop are enough for it to return.
pub register_lem :
    (address : ℕ) (s : Storage)
    → IsValid s
    → (find_free s.slot_size 0 s ≢ none) ⊎ (s.slot_size * 2 ≤ 2 ^ 24)
    → (handle : ℕ) × (s' : Storage) × Claimed 2 address s handle s'
register_lem address s v room = elim (Option-cases (find_free s.slot_size 0 s)) [
  | inr (h, e) ↦ registered_free 1 address s v h e
  | inl e ↦
      let le : s.slot_size * 2 ≤ 2 ^ 24 = elim room [ inl ne ↦ absurd (ne e) | inr le ↦ le ] in
      let (s1, g) = grow_lem s v e le in
      elim (Option-cases (find_free s1.slot_size 0 s1)) [
        | inl q ↦ absurd (g.room q)
        | inr (h, q) ↦
            let (handle, s', c) = registered_free 0 address s1 g.valid h q in
            (
              handle,
              s',
              record {
                returns = register_grown 1 address s s1 e g.returns ∙ c.returns;
                fresh = sym (g.lookups handle) ∙ c.fresh;
                local_handle = c.local_handle ∙ g.same_harbor;
                found = c.found;
                others = λ k ne. c.others k ne ∙ g.lookups k;
                valid = c.valid;
              },
            )
      ]
]

-- A table with all `2 ^ 24` slots taken fails the assertion of `skynet_handle_register`.
pub register_full :
    (fuel address : ℕ) (s : Storage)
    → find_free s.slot_size 0 s ≡ none
    → s.slot_size ≡ 2 ^ 24
    → register (suc fuel) address s ≡ none
register_full fuel address s e q = register_stuck fuel address s e (unfold grow in ground arith)
