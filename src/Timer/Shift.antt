-- ===== src/Timer/Shift.antt =====
-- `timer_add` and `timer_shift` on the multiset of pending nodes.
use game_server.Common.{
  ℕ, ◌+◌, ◌^◌, ◌<◌, ◌≡◌, ◌≢◌, ◌⊎◌, inl, inr, refl, ◌∙◌, none, some, [], ◌∷◌, if◌then◌else◌, update,
  arith,
}
use game_server.Timer.{
  Node, Timer, Slot, close, far, slot, add_all, timer_add, move_list, due_list, timer_shift, uint32,
}
use game_server.Timer.Slots.{distance, Ahead, due_list_total, Ahead-Settled}
use game_server.Timer.Pending.{
  slot_eq, node_eq_iff, slot_eq_iff, count, bucket, only_at, count-add_node, count-add_all,
  time-add_all, time-add_node, Models,
}

-- one more copy of a node
abbrev pub plus : (Node → ℕ) → Node → Node → ℕ
plus m n x = m x + count x (n ∷ [])

abbrev pub new_node : Timer → ℕ → ℕ → ℕ → Node
new_node T handle session time = record {
  expire = uint32 (time + T.time);
  handle = handle;
  session = session;
}

-- `timer_add` at a delay that an `int` can hold makes the node pending.
pub timer_add-Models :
    (m : Node → ℕ) (T : Timer) (handle session time : ℕ)
    → time < 2 ^ 31
    → Models m T
    → Models (plus m (new_node T handle session time)) (timer_add T handle session time)
unfolding timer_add count
timer_add-Models m T handle session time h v =
    let n = new_node T handle session time in
    record {
      clock = rw (time-add_node T n) v.clock;
      placed = λ x s. rw (time-add_node T n) (ground (arith, count-add_node T n x s, v.placed x s));
      in_time = λ x pos. rw (time-add_node T n) (ground (arith, v.in_time x, node_eq_iff x n));
    }

pub time-timer_add :
    (T : Timer) (handle session time : ℕ) → (timer_add T handle session time).time ≡ T.time
unfolding timer_add
time-timer_add T handle session time = time-add_node T (new_node T handle session time)

-- The lists after `link_clear` of one list of row `l`.
cleared : Timer → ℕ → ℕ → ℕ → Timer
cleared T ct l i = record T { time = ct; levels = update T.levels l (update (T.levels l) i []) }

count-cleared :
    (T : Timer) (ct l i : ℕ) (x : Node) (s : Slot)
    → count x (bucket (cleared T ct l i) s)
      ≡ (if slot_eq (far l i) s then 0 else count x (bucket T s))
unfolding cleared count
count-cleared T ct l i x (close j) = refl
count-cleared T ct l i x (far k j) = ground arith

-- The slot of every pending node after the step, whichever list is moved.
count-moved :
    (m : Node → ℕ) (T : Timer) (ct l i : ℕ) (x : Node) (s : Slot)
    → Models m T
    → (0 < m x → (slot x.expire ct ≡ slot x.expire T.time) ⊎ (slot x.expire T.time ≡ far l i))
    → count x (bucket (add_all (cleared T ct l i) (T.levels l i)) s)
      ≡ only_at (slot x.expire ct) s (m x)
unfolding cleared
count-moved m T ct l i x s v settled =
    let C = cleared T ct l i in
    let old = slot x.expire T.time in
    let new = slot x.expire ct in
    ground (
      arith,
      settled,
      count-add_all C (T.levels l i) x s,
      count-cleared T ct l i x s,
      v.placed x s,
      v.placed x (far l i),
      slot_eq_iff (far l i) s,
      slot_eq_iff old s,
      slot_eq_iff old (far l i),
      slot_eq_iff new s,
    )

bucket-time : (T : Timer) (ct : ℕ) (s : Slot) → bucket (record T { time = ct }) s ≡ bucket T s
bucket-time T ct (close i) = refl
bucket-time T ct (far l i) = refl

timer_shift_still :
    (T : Timer)
    → due_list (uint32 (T.time + 1)) ≡ some none
    → timer_shift T ≡ record T { time = uint32 (T.time + 1) }
unfolding timer_shift
timer_shift_still T e = rw (e, timer_shift)

timer_shift_moved :
    (T : Timer) (l i : ℕ)
    → due_list (uint32 (T.time + 1)) ≡ some (some (l, i))
    → timer_shift T ≡ add_all (cleared T (uint32 (T.time + 1)) l i) (T.levels l i)
unfolding timer_shift move_list cleared
timer_shift_moved T l i e = rw (e, timer_shift)

module _ (m : Node → ℕ) (T : Timer) (v : Models m T) where
  abbrev NoneDue : Type 0
  NoneDue = (x : Node) → 0 < m x → x.expire ≢ T.time

  shifted-in_time :
      NoneDue
      → (x : Node) → 0 < m x
      → (x.expire < 2 ^ 32) × (distance x.expire (uint32 (T.time + 1)) < 2 ^ 31)
  shifted-in_time none_due x pos = omega (arith, v.clock, v.in_time x pos, none_due x pos)

  ahead : NoneDue → (x : Node) → 0 < m x → Ahead x.expire T.time
  ahead none_due x pos = omega (arith, v.clock, v.in_time x pos, none_due x pos)

  settled :
      NoneDue
      → (x : Node) (l i : ℕ) → 0 < m x
      → due_list (uint32 (T.time + 1)) ≡ some (some (l, i))
      → (slot x.expire (uint32 (T.time + 1)) ≡ slot x.expire T.time)
        ⊎ (slot x.expire T.time ≡ far l i)
  settled none_due x l i pos e = elim (Ahead-Settled x.expire T.time (ahead none_due x pos)) [
    | inl q ↦ inl q
    | inr (l', i', e', f) ↦ inr (cc)
  ]

  stays :
      NoneDue
      → (x : Node) → 0 < m x
      → due_list (uint32 (T.time + 1)) ≡ some none
      → slot x.expire (uint32 (T.time + 1)) ≡ slot x.expire T.time
  stays none_due x pos e = elim (Ahead-Settled x.expire T.time (ahead none_due x pos)) [
    | inl q ↦ q
    | inr (l', i', e', f) ↦ cc
  ]

  shift_still :
      NoneDue
      → due_list (uint32 (T.time + 1)) ≡ some none
      → Models m (record T { time = uint32 (T.time + 1) })
  shift_still none_due e = record {
    clock = omega arith;
    placed = λ x s.
        rw (bucket-time T (uint32 (T.time + 1)) s)
          (ground (arith, v.placed x s, λ (pos : 0 < m x). stays none_due x pos e));
    in_time = shifted-in_time none_due;
  }

  shift_moved :
      NoneDue
      → (l i : ℕ) → due_list (uint32 (T.time + 1)) ≡ some (some (l, i))
      → Models m (add_all (cleared T (uint32 (T.time + 1)) l i) (T.levels l i))
  shift_moved none_due l i e =
      let C = cleared T (uint32 (T.time + 1)) l i in
      let t : (add_all C (T.levels l i)).time ≡ uint32 (T.time + 1) =
        time-add_all C (T.levels l i) ∙ unfold cleared in refl in
      record {
        clock = rw t (omega arith);
        placed = λ x s.
            rw t (
              count-moved m T (uint32 (T.time + 1)) l i x s v
                (λ pos. settled none_due x l i pos e));
        in_time = rw t (shifted-in_time none_due);
      }

  -- `timer_shift` keeps the multiset of pending nodes, if none is due at the time that it leaves.
  pub timer_shift-Models : NoneDue → Models m (timer_shift T)
  timer_shift-Models none_due = elim (due_list_total (uint32 (T.time + 1)) (omega arith)) [
    | inl e ↦ rw (timer_shift_still T e) (shift_still none_due e)
    | inr (l, i, e, _, _) ↦ rw (timer_shift_moved T l i e) (shift_moved none_due l i e)
  ]

pub time-timer_shift : (T : Timer) → T.time < 2 ^ 32 → (timer_shift T).time ≡ uint32 (T.time + 1)
unfolding cleared
time-timer_shift T h = elim (due_list_total (uint32 (T.time + 1)) (omega arith)) [
  | inl e ↦ rw (timer_shift_still T e)
  | inr (l, i, e, _, _) ↦
      rw (timer_shift_moved T l i e)
        (time-add_all (cleared T (uint32 (T.time + 1)) l i) (T.levels l i))
]
