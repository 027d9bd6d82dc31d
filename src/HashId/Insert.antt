-- ===== src/HashId/Insert.antt =====
-- `hashid_insert`: a new id gets a free slot, and is found there.
use mathlib.Core.Path.{subst}
use native.Mathlib.Decide.{ℕ_discrete}
use native.Mathlib.Nat.{mod-eq_of_lt, mod-lt, mod-add-mod, add-mod-mod, add-mod_right}
use game_server.Common.{
  ℕ, zero, suc, ◌+◌, ◌-◌, ◌%◌, ◌^◌, leb, ◌≤◌, ◌<◌, ◌≡◌, ◌≢◌, refl, sym, ap, ◌∙◌, inl, inr, false,
  none, some, ◌∷◌, In, ◌==◌, if◌then◌else◌, update, Option-cases, arith,
}
use game_server.HashId.{HashId, bucket, holds, find_slot, lookup, unchain, free_slot, insert, full}
use game_server.HashId.Chains.{
  occupied, IsTable, used-update, used-lt, find_slot_same, unchain_same, unchain-In,
}

-- A round of the loop.
free_slot_round :
    (n i : ℕ) (hi : HashId) (id : ℕ)
    → i + id < 2 ^ 31
    → free_slot (suc n) i hi id ≡ (elim (hi.id ((i + id) % hi.cap)) [
      | none ↦ some ((i + id) % hi.cap)
      | some k ↦ free_slot n (i + 1) hi id
    ])
unfolding free_slot
free_slot_round n i hi id small =
    let f : leb (2 ^ 31) (i + id) ≡ false = ground arith in rw (free_slot, f) refl

-- The loop finds a free slot, if one of the slots that it visits is free, and their numbers are `int`s.
free_slot_lem :
    (n i : ℕ) (hi : HashId) (id m : ℕ)
    → i ≤ m
    → m < i + n
    → i + n + id ≤ 2 ^ 31
    → hi.id ((m + id) % hi.cap) ≡ none
    → (c : ℕ) × (free_slot n i hi id ≡ some c) × (hi.id c ≡ none) × (0 < hi.cap → c < hi.cap)
free_slot_lem zero i hi id m le lt bound e = absurd (omega arith)
free_slot_lem (suc n) i hi id m le lt bound e = elim (Option-cases (hi.id ((i + id) % hi.cap))) [
  | inl z ↦ (
    (i + id) % hi.cap,
    rw (free_slot_round n i hi id (omega arith), z) refl,
    z,
    λ pos. mod-lt (i + id) pos,
  )
  | inr (k, s) ↦ elim (ℕ_discrete i m) [
    | yes d ↦ absurd (
        let f = ap (λ k. hi.id ((k + id) % hi.cap)) d in
        let g : some k ≡ none = sym s ∙ f ∙ e in cc)
    | no ne ↦
        let (c, run, free, small) =
          free_slot_lem n (i + 1) hi id m (omega arith) (omega arith) (omega arith) e in
        (c, rw (free_slot_round n i hi id (omega arith), s) run, free, small)
  ]
]

-- Every slot is visited.
visited : (cap id j : ℕ) → j < cap → (m : ℕ) × (m < cap) × ((m + id) % cap ≡ j)
visited cap id j lt =
    let x : ℕ = j + (cap - id % cap) in
    let r : id % cap < cap = mod-lt id (omega arith) in
    let whole : x + id % cap ≡ j + cap = omega arith in
    (
      x % cap,
      mod-lt x (omega arith),
      mod-add-mod x cap id
          ∙ sym (add-mod-mod x id cap)
          ∙ ap (λ k. k % cap) whole
          ∙ add-mod_right j cap
          ∙ mod-eq_of_lt lt,
    )

abbrev pub inserted : HashId → ℕ → ℕ → HashId
inserted hi id c = record hi {
  count = hi.count + 1;
  id = update hi.id c (some id);
  hash = update hi.hash (bucket hi id) (c ∷ hi.hash (bucket hi id));
}

holds-inserted : (hi : HashId) (id c k d : ℕ) → d ≢ c → holds (inserted hi id c) k d ≡ holds hi k d
unfolding holds
holds-inserted hi id c k d ne = ground arith

-- A free slot is in no chain.
not_chained : (hi : HashId) (c b : ℕ) → IsTable hi → hi.id c ≡ none → ¬ In c (hi.hash b)
not_chained hi c b t free i =
    let (k, e, same) = t.placed b c i in absurd (let f : none ≡ some k = sym free ∙ e in cc)

holds-chained :
    (hi : HashId) (id c k b : ℕ)
    → IsTable hi
    → hi.id c ≡ none
    → (d : ℕ) → In d (hi.hash b)
    → holds (inserted hi id c) k d ≡ holds hi k d
holds-chained hi id c k b t free d i =
    holds-inserted hi id c k d (λ e. not_chained hi c b t free (subst (λ x. In x (hi.hash b)) e i))

find_slot-inserted :
    (hi : HashId) (id c k b : ℕ)
    → IsTable hi
    → hi.id c ≡ none
    → find_slot (inserted hi id c) k (hi.hash b) ≡ find_slot hi k (hi.hash b)
find_slot-inserted hi id c k b t free =
    find_slot_same hi (inserted hi id c) k (hi.hash b) (holds-chained hi id c k b t free)

-- After an insert the new id is found in its slot, and every other where it was.
lookup-inserted :
    (hi : HashId) (id c k : ℕ)
    → IsTable hi
    → hi.id c ≡ none
    → lookup (inserted hi id c) k ≡ (if k == id then some c else lookup hi k)
unfolding lookup find_slot holds
lookup-inserted hi id c k t free =
    let same = find_slot-inserted hi id c k (bucket hi k) t free in ground (arith, same)

once-same :
    (hi : HashId) (id c k b : ℕ)
    → IsTable hi
    → hi.id c ≡ none
    → find_slot (inserted hi id c) k (unchain (inserted hi id c) k (hi.hash b))
      ≡ find_slot hi k (unchain hi k (hi.hash b))
once-same hi id c k b t free =
    ap (find_slot (inserted hi id c) k)
      (unchain_same hi (inserted hi id c) k (hi.hash b) (holds-chained hi id c k b t free))
    ∙ find_slot_same hi (inserted hi id c) k (unchain hi k (hi.hash b))
        (λ d i. holds-chained hi id c k b t free d (unchain-In hi k d (hi.hash b) i))

once-inserted :
    (hi : HashId) (id c k : ℕ)
    → IsTable hi
    → hi.id c ≡ none
    → lookup hi id ≡ none
    → find_slot
        (inserted hi id c)
        k
        (unchain (inserted hi id c) k ((inserted hi id c).hash (bucket hi k)))
      ≡ none
unfolding lookup find_slot unchain holds
once-inserted hi id c k t free new = elim (ℕ_discrete (bucket hi id) (bucket hi k)) [
  | yes b ↦ elim (ℕ_discrete k id) [
    | yes e ↦
        let gone = find_slot-inserted hi id c k (bucket hi id) t free in
        let new' : find_slot hi k (hi.hash (bucket hi id)) ≡ none =
          subst (λ x. find_slot hi x (hi.hash (bucket hi id)) ≡ none) (sym e) new in
        ground (arith, gone, new')
    | no ne ↦
        let same = once-same hi id c k (bucket hi id) t free in
        let old : find_slot hi k (unchain hi k (hi.hash (bucket hi id))) ≡ none =
          subst (λ x. find_slot hi k (unchain hi k (hi.hash x)) ≡ none) (sym b) (t.once k) in
        ground (arith, same, old)
  ]
  | no nb ↦ let same = once-same hi id c k (bucket hi k) t free in ground (arith, same, t.once k)
]

placed_before :
    (hi : HashId) (id c b d : ℕ)
    → IsTable hi
    → hi.id c ≡ none
    → In d (hi.hash b)
    → (k : ℕ) × ((inserted hi id c).id d ≡ some k) × (bucket hi k ≡ b)
placed_before hi id c b d t free i =
    let (k, e, same) = t.placed b d i in
    let ne : d ≢ c = λ x. not_chained hi c b t free (subst (λ y. In y (hi.hash b)) x i) in
    (k, ground arith, same)

placed-inserted :
    (hi : HashId) (id c b d : ℕ)
    → IsTable hi
    → hi.id c ≡ none
    → In d ((inserted hi id c).hash b)
    → (k : ℕ) × ((inserted hi id c).id d ≡ some k) × (bucket hi k ≡ b)
placed-inserted hi id c b d t free i = elim (ℕ_discrete (bucket hi id) b) [
  | yes e ↦
      let chain : (inserted hi id c).hash b ≡ c ∷ hi.hash (bucket hi id) = ground arith in
      elim (let j : In d (c ∷ hi.hash (bucket hi id)) = subst (In d) chain i in j) [
        | inl same ↦ (id, ground arith, e)
        | inr j ↦ placed_before hi id c b d t free (subst (λ y. In d (hi.hash y)) e j)
      ]
  | no ne ↦
      let chain : (inserted hi id c).hash b ≡ hi.hash b = ground arith in
      placed_before hi id c b d t free (subst (In d) chain i)
]

pub inserted-IsTable :
    (hi : HashId) (id c : ℕ)
    → IsTable hi
    → hi.id c ≡ none
    → c < hi.cap
    → lookup hi id ≡ none
    → IsTable (inserted hi id c)
inserted-IsTable hi id c t free lt new = record {
  found = λ d k e. elim (ℕ_discrete d c) [
    | yes same ↦ ground (arith, lookup-inserted hi id c k t free)
    | no ne ↦
        let e' : hi.id d ≡ some k = ground arith in
        let f = t.found d k e' in
        let other : k ≢ id =
          λ s. absurd (let g = ap (lookup hi) s in let z : some d ≡ none = sym f ∙ g ∙ new in cc) in
        ground (arith, lookup-inserted hi id c k t free)
  ];
  placed = λ b d i. placed-inserted hi id c b d t free i;
  once = λ k. once-inserted hi id c k t free new;
  inside = λ d k e. elim (ℕ_discrete d c) [
    | yes same ↦ omega arith
    | no ne ↦ t.inside d k (ground arith)
  ];
  counted =
      let was : occupied (hi.id c) ≡ 0 = ap occupied free in
      omega (arith, t.counted, used-update hi.cap c hi.id (some id) lt);
}

-- `hashid_insert` of a new id into a table that is not full, where the id and the capacity are together
-- at most 2^31, so that no index overflows: a slot below `cap` that was free now holds
-- the id, every other id is where it was, and the table stays valid.
pub insert_lem :
    (hi : HashId) (id : ℕ)
    → IsTable hi
    → full hi ≡ false
    → lookup hi id ≡ none
    → id + hi.cap ≤ 2 ^ 31
    → (c : ℕ) × (hi' : HashId) × (insert hi id ≡ some (c, hi'))
      × (c < hi.cap)
      × (hi.id c ≡ none)
      × IsTable hi'
      × ((k : ℕ) → lookup hi' k ≡ (if k == id then some c else lookup hi k))
unfolding insert full
insert_lem hi id t room new bound =
    let (j, lt, free) = used-lt hi.cap hi.id (ground (arith, t.counted)) in
    let (m, small, visits) = visited hi.cap id j lt in
    let (c, run, empty, inside) =
      free_slot_lem hi.cap 0 hi id m (omega arith) (omega arith) (omega arith)
        (ap hi.id visits ∙ free) in
    let below = inside (omega arith) in
    (
      c,
      inserted hi id c,
      rw (insert, run) refl,
      below,
      empty,
      inserted-IsTable hi id c t empty below new,
      λ k. lookup-inserted hi id c k t empty,
    )
