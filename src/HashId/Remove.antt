-- ===== src/HashId/Remove.antt =====
-- `hashid_remove`: an id leaves the table, and its slot is free.
use mathlib.Core.Path.{subst}
use native.Mathlib.Decide.{ℕ_discrete}
use game_server.Common.{
  ℕ, ◌-◌, ◌≡◌, ◌≢◌, refl, sym, ap, ◌∙◌, ◌⊎◌, inl, inr, true, false, Option, none, some, List, [],
  ◌∷◌, In, ◌==◌, if◌then◌else◌, update, Bool-cases, Option-cases, arith,
}
use game_server.HashId.{HashId, bucket, holds, find_slot, lookup, unchain, remove}
use game_server.HashId.Chains.{
  occupied, IsTable, used-update, find_slot_same, unchain_same, unchain-In, find_slot-holds,
  find_slot-none, holds-id, id-holds,
}

abbrev removed : HashId → ℕ → ℕ → HashId
removed hi id c = record hi {
  count = hi.count - 1;
  id = update hi.id c (let gone : Option ℕ = none in gone);
  hash = update hi.hash (bucket hi id) (unchain hi id (hi.hash (bucket hi id)));
}

-- One slot holds one id.
holds_other : (hi : HashId) (j k d : ℕ) → k ≢ j → holds hi j d ≡ true → holds hi k d ≡ false
unfolding holds
holds_other hi j k d ne e = let f = holds-id hi j d e in ground arith

find_slot-unchain :
    (hi : HashId) (j k : ℕ) (cs : List ℕ)
    → k ≢ j
    → find_slot hi k (unchain hi j cs) ≡ find_slot hi k cs
unfolding find_slot unchain
find_slot-unchain hi j k [] ne = refl
find_slot-unchain hi j k (d ∷ cs) ne = elim (Bool-cases (holds hi j d)) [
  | inl t ↦ rw (t, holds_other hi j k d ne t) refl
  | inr f ↦ rw (f, find_slot-unchain hi j k cs ne) refl
]

unchain_comm :
    (hi : HashId) (j k : ℕ) (cs : List ℕ)
    → k ≢ j
    → unchain hi k (unchain hi j cs) ≡ unchain hi j (unchain hi k cs)
unfolding unchain
unchain_comm hi j k [] ne = refl
unchain_comm hi j k (d ∷ cs) ne = elim (Bool-cases (holds hi j d)) [
  | inl t ↦ let f = holds_other hi j k d ne t in rw (t, f, t) refl
  | inr f ↦ elim (Bool-cases (holds hi k d)) [
    | inl t ↦ ground (arith, f, t)
    | inr g ↦ ground (arith, f, g, unchain_comm hi j k cs ne)
  ]
]

unchain_absent :
    (hi : HashId) (k : ℕ) (cs : List ℕ) → find_slot hi k cs ≡ none → unchain hi k cs ≡ cs
unfolding find_slot unchain
unchain_absent hi k [] e = refl
unchain_absent hi k (d ∷ cs) e = elim (Bool-cases (holds hi k d)) [
  | inl t ↦ absurd (let e' : some d ≡ none = rw t at e in cc)
  | inr f ↦ rw (f, unchain_absent hi k cs (rw f at e)) refl
]

holds-removed :
    (hi : HashId) (id c k d : ℕ)
    → hi.id c ≡ some id
    → k ≢ id
    → holds (removed hi id c) k d ≡ holds hi k d
unfolding holds
holds-removed hi id c k d e ne = elim (ℕ_discrete d c) [
  | yes s ↦ let f : hi.id d ≡ some id = ap hi.id s ∙ e in ground arith
  | no n ↦ ground arith
]

find_slot-removed :
    (hi : HashId) (id c k : ℕ) (cs : List ℕ)
    → hi.id c ≡ some id
    → k ≢ id
    → find_slot (removed hi id c) k cs ≡ find_slot hi k cs
find_slot-removed hi id c k cs e ne =
    find_slot_same hi (removed hi id c) k cs (λ d i. holds-removed hi id c k d e ne)

unchain-removed :
    (hi : HashId) (id c k : ℕ) (cs : List ℕ)
    → hi.id c ≡ some id
    → k ≢ id
    → unchain (removed hi id c) k cs ≡ unchain hi k cs
unchain-removed hi id c k cs e ne =
    unchain_same hi (removed hi id c) k cs (λ d i. holds-removed hi id c k d e ne)

-- A slot that does not hold the removed id does not hold it afterwards.
holds-removed_self :
    (hi : HashId) (id c d : ℕ)
    → holds hi id d ≡ false
    → holds (removed hi id c) id d ≡ holds hi id d
unfolding holds
holds-removed_self hi id c d e = elim (ℕ_discrete d c) [
  | yes s ↦ ground arith
  | no n ↦ ground arith
]

abbrev left : HashId → ℕ → List ℕ
left hi id = unchain hi id (hi.hash (bucket hi id))

find_slot-left :
    (hi : HashId) (id c : ℕ) → IsTable hi → find_slot (removed hi id c) id (left hi id) ≡ none
find_slot-left hi id c t =
    find_slot_same hi (removed hi id c) id (left hi id)
      (λ d i. holds-removed_self hi id c d (find_slot-none hi id d (left hi id) (t.once id) i))
    ∙ t.once id

-- After a remove the id is not found, and every other where it was.
lookup-removed :
    (hi : HashId) (id c k : ℕ)
    → IsTable hi
    → hi.id c ≡ some id
    → lookup (removed hi id c) k ≡ (if k == id then none else lookup hi k)
unfolding lookup
lookup-removed hi id c k t e = elim (ℕ_discrete k id) [
  | yes s ↦
      let gone = find_slot-left hi id c t in
      let chain : (removed hi id c).hash (bucket hi k) ≡ left hi id = ground arith in
      let gone' : find_slot (removed hi id c) k (left hi id) ≡ none =
        subst (λ x. find_slot (removed hi id c) x (left hi id) ≡ none) (sym s) gone in
      ap (find_slot (removed hi id c) k) chain
      ∙ gone'
      ∙ (let z : none ≡ (if k == id then none else lookup hi k) = ground arith in z)
  | no ne ↦
      let kept : (if k == id then none else lookup hi k) ≡ lookup hi k = ground arith in
      elim (ℕ_discrete (bucket hi id) (bucket hi k)) [
        | yes b ↦
            let chain : (removed hi id c).hash (bucket hi k) ≡ left hi id = ground arith in
            let walk = find_slot-removed hi id c k (left hi id) e ne in
            let old = find_slot-unchain hi id k (hi.hash (bucket hi id)) ne in
            let same = ap (λ b. find_slot hi k (hi.hash b)) b in
            ap (find_slot (removed hi id c) k) chain ∙ walk ∙ old ∙ same ∙ sym kept
        | no nb ↦
            let chain : (removed hi id c).hash (bucket hi k) ≡ hi.hash (bucket hi k) =
              ground arith in
            let walk = find_slot-removed hi id c k (hi.hash (bucket hi k)) e ne in
            ap (find_slot (removed hi id c) k) chain ∙ walk ∙ sym kept
      ]
]

-- What the chain of a bucket holds after a remove was in it, in another slot.
In-removed :
    (hi : HashId) (id c b d : ℕ)
    → IsTable hi
    → hi.id c ≡ some id
    → In d ((removed hi id c).hash b)
    → In d (hi.hash b) × (d ≢ c)
In-removed hi id c b d t e i = elim (ℕ_discrete (bucket hi id) b) [
  | yes s ↦
      let chain : (removed hi id c).hash b ≡ left hi id = ground arith in
      let j : In d (left hi id) = subst (In d) chain i in
      let old = unchain-In hi id d (hi.hash (bucket hi id)) j in
      let other : d ≢ c = λ x. absurd (
        let f = find_slot-none hi id d (left hi id) (t.once id) j in
        let g : holds hi id d ≡ true = ap (holds hi id) x ∙ id-holds hi id c e in
        let z : true ≡ false = sym g ∙ f in cc) in
      (subst (λ x. In d (hi.hash x)) s old, other)
  | no n ↦
      let chain : (removed hi id c).hash b ≡ hi.hash b = ground arith in
      let j : In d (hi.hash b) = subst (In d) chain i in
      let other : d ≢ c = λ x.
        let (k, f, same) = t.placed b d j in
        absurd (
          let g : some k ≡ some id = sym f ∙ ap hi.id x ∙ e in
          let h : k ≡ id = ground arith in n (ap (bucket hi) (sym h) ∙ same)) in
      (j, other)
]

once_same_bucket :
    (hi : HashId) (id c k : ℕ)
    → IsTable hi
    → hi.id c ≡ some id
    → bucket hi id ≡ bucket hi k
    → find_slot (removed hi id c) k (unchain (removed hi id c) k (left hi id)) ≡ none
once_same_bucket hi id c k t e b = elim (ℕ_discrete k id) [
  | yes s ↦
      let gone = find_slot-left hi id c t in
      let gone' : find_slot (removed hi id c) k (left hi id) ≡ none =
        subst (λ x. find_slot (removed hi id c) x (left hi id) ≡ none) (sym s) gone in
      ap (find_slot (removed hi id c) k) (unchain_absent (removed hi id c) k (left hi id) gone')
      ∙ gone'
  | no ne ↦
      let chain = hi.hash (bucket hi id) in
      ap (find_slot (removed hi id c) k) (unchain-removed hi id c k (left hi id) e ne)
      ∙ find_slot-removed hi id c k (unchain hi k (left hi id)) e ne
      ∙ ap (find_slot hi k) (unchain_comm hi id k chain ne)
      ∙ find_slot-unchain hi id k (unchain hi k chain) ne
      ∙ ap (λ b. find_slot hi k (unchain hi k (hi.hash b))) b
      ∙ t.once k
]

once-removed :
    (hi : HashId) (id c k : ℕ)
    → IsTable hi
    → hi.id c ≡ some id
    → find_slot
        (removed hi id c)
        k
        (unchain (removed hi id c) k ((removed hi id c).hash (bucket hi k)))
      ≡ none
once-removed hi id c k t e = elim (ℕ_discrete (bucket hi id) (bucket hi k)) [
  | yes b ↦
      let chain : (removed hi id c).hash (bucket hi k) ≡ left hi id = ground arith in
      ap (λ cs. find_slot (removed hi id c) k (unchain (removed hi id c) k cs)) chain
      ∙ once_same_bucket hi id c k t e b
  | no nb ↦
      let chain : (removed hi id c).hash (bucket hi k) ≡ hi.hash (bucket hi k) = ground arith in
      let ne : k ≢ id = λ s. nb (ap (bucket hi) (sym s)) in
      ap (λ cs. find_slot (removed hi id c) k (unchain (removed hi id c) k cs)) chain
      ∙ ap (find_slot (removed hi id c) k) (unchain-removed hi id c k (hi.hash (bucket hi k)) e ne)
      ∙ find_slot-removed hi id c k (unchain hi k (hi.hash (bucket hi k))) e ne
      ∙ t.once k
]

removed-IsTable :
    (hi : HashId) (id c : ℕ) → IsTable hi → hi.id c ≡ some id → IsTable (removed hi id c)
removed-IsTable hi id c t e = record {
  found = λ d k h.
      let kept : (d ≢ c) × (hi.id d ≡ some k) = ground arith in
      let old = t.found d k (kept.1) in
      let other : k ≢ id = λ s.
        let now : some d ≡ some c = sym old ∙ ap (lookup hi) s ∙ t.found c id e in
        kept.0 (ground arith) in
      ground (arith, lookup-removed hi id c k t e);
  placed = λ b d i.
      let (j, other) = In-removed hi id c b d t e i in
      let (k, f, same) = t.placed b d j in (k, ground arith, same);
  once = λ k. once-removed hi id c k t e;
  inside = λ d k h. t.inside d k (ground arith);
  counted =
      let was : occupied (hi.id c) ≡ 1 = ap occupied e in
      omega (arith, t.counted, used-update hi.cap c hi.id none (t.inside c id e));
}

-- `hashid_remove` from a valid table: an id that is found leaves, the slot that is returned is the one that
-- held it and is free, every other id stays where it was, and the table stays valid; for an id that is not
-- found the table does not change.
pub remove_lem :
    (hi : HashId) (id : ℕ)
    → IsTable hi
    → ((c : ℕ) × (hi' : HashId) × (remove hi id ≡ (some c, hi'))
        × (lookup hi id ≡ some c)
        × (hi'.id c ≡ none)
        × IsTable hi'
        × ((k : ℕ) → lookup hi' k ≡ (if k == id then none else lookup hi k)))
      ⊎ (remove hi id ≡ (none, hi)) × (lookup hi id ≡ none)
unfolding remove lookup
remove_lem hi id t = elim (Option-cases (lookup hi id)) [
  | inl z ↦ inr (rw (remove, z) refl, z)
  | inr (c, f) ↦
      let e = holds-id hi id c (find_slot-holds hi id c (hi.hash (bucket hi id)) f) in
      inl (
        c,
        removed hi id c,
        rw (remove, f) refl,
        f,
        ground arith,
        removed-IsTable hi id c t e,
        λ k. lookup-removed hi id c k t e,
      )
]
