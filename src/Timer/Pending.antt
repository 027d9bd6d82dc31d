-- ===== src/Timer/Pending.antt =====
-- The wheel as a multiset of pending nodes: how often each node stands in each list.
use game_server.Common.{
  ℕ, suc, ◌+◌, ◌^◌, ◌<◌, ◌≡◌, ◌↔◌, refl, ◌∙◌, Bool, true, false, ◌&&◌, List, [], ◌∷◌, ◌++◌, ◌==◌,
  if◌then◌else◌, arith,
}
use game_server.Timer.{Node, Timer, Slot, close, far, slot, link, add_node, add_all}
use game_server.Timer.Slots.{distance}

abbrev pub node_eq : Node → Node → Bool
node_eq a b = (a.expire == b.expire) && ((a.handle == b.handle) && (a.session == b.session))

abbrev pub slot_eq : Slot → Slot → Bool
slot_eq (close i) (close j) = i == j
slot_eq (close i) (far l j) = false
slot_eq (far k i) (close j) = false
slot_eq (far k i) (far l j) = (k == l) && (i == j)

pub node_eq_iff : (a b : Node) → (node_eq a b ≡ true) ↔ (a ≡ b)
node_eq_iff a b = ground arith

pub slot_eq_iff : (a b : Slot) → (slot_eq a b ≡ true) ↔ (a ≡ b)
slot_eq_iff (close i) (close j) = ground arith
slot_eq_iff (close i) (far l j) = ground arith
slot_eq_iff (far k i) (close j) = ground arith
slot_eq_iff (far k i) (far l j) = ground arith

-- how often a node stands in a list
unfoldable pub count : Node → List Node → ℕ
count x [] = 0
count x (y ∷ ys) = if node_eq x y then suc (count x ys) else count x ys

pub count-append : (x : Node) (xs ys : List Node) → count x (xs ++ ys) ≡ count x xs + count x ys
unfolding count
count-append x [] ys = omega arith
count-append x (y ∷ xs) ys = ground (arith, count-append x xs ys)

abbrev pub bucket : Timer → Slot → List Node
bucket T (close i) = T.near i
bucket T (far l i) = T.levels l i

-- `k` at the slot `a`, nothing elsewhere
abbrev pub only_at : Slot → Slot → ℕ → ℕ
only_at a s k = if slot_eq a s then k else 0

pub count-link :
    (T : Timer) (a s : Slot) (n x : Node)
    → count x (bucket (link T a n) s) ≡ count x (bucket T s) + only_at a s (count x (n ∷ []))
unfolding link
count-link T (close i) (close j) n x = ground (arith, count-append x (T.near i) (n ∷ []))
count-link T (close i) (far l j) n x = ground arith
count-link T (far k i) (close j) n x = ground arith
count-link T (far k i) (far l j) n x = ground (arith, count-append x (T.levels k i) (n ∷ []))

time-link : (T : Timer) (a : Slot) (n : Node) → (link T a n).time ≡ T.time
unfolding link
time-link T (close i) n = refl
time-link T (far l i) n = refl

pub time-add_node : (T : Timer) (n : Node) → (add_node T n).time ≡ T.time
unfolding add_node
time-add_node T n = time-link T (slot n.expire T.time) n

pub time-add_all : (T : Timer) (ns : List Node) → (add_all T ns).time ≡ T.time
unfolding add_all
time-add_all T [] = refl
time-add_all T (n ∷ ns) = time-add_all (add_node T n) ns ∙ time-add_node T n

-- Each added node goes to its slot.
pub count-add_node :
    (T : Timer) (n x : Node) (s : Slot)
    → count x (bucket (add_node T n) s)
      ≡ count x (bucket T s) + only_at (slot x.expire T.time) s (count x (n ∷ []))
unfolding add_node count
count-add_node T n x s = ground (arith, count-link T (slot n.expire T.time) s n x, node_eq_iff x n)

pub count-add_all :
    (T : Timer) (ns : List Node) (x : Node) (s : Slot)
    → count x (bucket (add_all T ns) s)
      ≡ count x (bucket T s) + only_at (slot x.expire T.time) s (count x ns)
unfolding add_all count
count-add_all T [] x s = ground arith
count-add_all T (n ∷ ns) x s =
    ground (arith, count-add_all (add_node T n) ns x s, count-add_node T n x s, time-add_node T n)

-- `T` holds the nodes of the multiset `m`, each in its slot, and all of them are due less than
-- `2 ^ 31` ticks from now.
pub record Models (m : Node → ℕ) (T : Timer) : Type 0 where
  pub clock : T.time < 2 ^ 32
  pub placed : (x : Node) (s : Slot) → count x (bucket T s) ≡ only_at (slot x.expire T.time) s (m x)
  pub in_time : (x : Node) → 0 < m x → (x.expire < 2 ^ 32) × (distance x.expire T.time < 2 ^ 31)
