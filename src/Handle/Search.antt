-- ===== src/Handle/Search.antt =====
-- The binary search over the names, and the operations that rest on it.
use mathlib.Core.Path.{subst}
use native.Mathlib.Decide.{dec_lt}
use game_server.Common.{
  ℕ, zero, suc, ◌+◌, ◌-◌, ◌/◌, ◌*◌, ◌^◌, ◌≤◌, ◌<◌, ◌≡◌, ◌⊎◌, inl, inr, refl, sym, ◌∙◌, true, false,
  Option, none, some, List, [], ◌∷◌, ◌++◌, length, take, drop, drop-length, arith,
}
use game_server.Handle.{
  Text, HandleName, Order, before, same, after, strcmp, name_at, Storage, Found, hit, miss,
  search_name, findname, insert_name_before, namehandle,
}
use game_server.Handle.Names.{
  Precede, Follow, IsSorted, find_name, find_name-Follow, Follow-trans, Precede-trans, cut_at,
  name_at_total, eq_of_same, strcmp_unflip, All-take-suc, find_name-name_at, insert-IsSorted,
  find_name-insert,
}

Order-cases : (o : Order) → (o ≡ before) ⊎ (o ≡ same) ⊎ (o ≡ after)
Order-cases before = inl refl
Order-cases same = inr (inl refl)
Order-cases after = inr (inr refl)

-- What a search may end with: an entry of the name, or the place where one would stand.
abbrev pub IsAnswer : List HandleName → Text → Found → Type 0
IsAnswer names name (hit handle) = find_name name names ≡ some handle
IsAnswer names name (miss i) = Precede name (take i names) × Follow name (drop i names)

-- one round of the search, by the outcome of its comparison
module _ (fuel : ℕ) (names : List HandleName) (name : Text) (begin stop : ℕ)
    (lt : begin < stop) where
  abbrev middle : ℕ
  middle = (begin + (stop - 1)) / 2

  search_hit :
      (n : HandleName)
      → name_at names middle ≡ some n
      → strcmp n.name name ≡ same
      → search_name (suc fuel) names name begin stop ≡ some (hit n.handle)
  unfolding search_name
  search_hit n e c = ground arith

  search_right :
      (n : HandleName)
      → name_at names middle ≡ some n
      → strcmp n.name name ≡ before
      → search_name (suc fuel) names name begin stop ≡ search_name fuel names name (middle + 1) stop
  unfolding search_name
  search_right n e c = ground arith

  search_left :
      (n : HandleName)
      → name_at names middle ≡ some n
      → strcmp n.name name ≡ after
      → search_name (suc fuel) names name begin stop ≡ search_name fuel names name begin middle
  unfolding search_name
  search_left n e c = ground arith

search_done :
    (fuel : ℕ) (names : List HandleName) (name : Text) (begin stop : ℕ)
    → ¬ (begin < stop)
    → search_name (suc fuel) names name begin stop ≡ some (miss begin)
unfolding search_name
search_done fuel names name begin stop h = ground arith

-- With as much fuel as there are entries between the ends, plus one, the search ends with an answer
-- that is right for a sorted array.
pub search_name_lem :
    (fuel : ℕ) (names : List HandleName) (name : Text) (begin stop : ℕ)
    → IsSorted names
    → stop - begin < fuel
    → stop ≤ length names
    → begin ≤ stop
    → Precede name (take begin names)
    → Follow name (drop stop names)
    → (r : Found) × (search_name fuel names name begin stop ≡ some r) × IsAnswer names name r
search_name_lem zero names name begin stop s h le le' b f = absurd (omega arith)
search_name_lem (suc fuel) names name begin stop s h le le' b f = elim (dec_lt begin stop) [
  | no p ↦
      let e : begin ≡ stop = omega arith in
      (
        miss begin,
        search_done fuel names name begin stop p,
        (b, subst (λ k. Follow name (drop k names)) (sym e) f),
      )
  | yes lt ↦
      let mid = (begin + (stop - 1)) / 2 in
      let (n, e) = name_at_total names mid (omega arith) in
      let (low, cut, high) = cut_at names mid n s e in
      elim (Order-cases (strcmp n.name name)) [
        | inl c ↦
            let (r, run, good) =
              search_name_lem fuel names name (mid + 1) stop s (omega arith) le (omega arith)
                (subst (λ k. Precede name (take k names))
                  (let e : suc mid ≡ mid + 1 = omega arith in e)
                  (All-take-suc (λ k. strcmp k.name name ≡ before) names mid n
                    (Precede-trans n.name name (take mid names) c low) e c))
                f in
            (r, search_right fuel names name begin stop lt n e c ∙ run, good)
        | inr (inl c) ↦ (
          hit n.handle,
          search_hit fuel names name begin stop lt n e c,
          subst (λ k. find_name k names ≡ some n.handle) (eq_of_same n.name name c)
              (find_name-name_at names mid n s e),
        )
        | inr (inr c) ↦
            let (r, run, good) =
              search_name_lem fuel names name begin mid s (omega arith) (omega arith) (omega arith)
                b
                (subst (Follow name) (sym cut) (
                  c,
                  Follow-trans name n.name (drop (suc mid) names) (strcmp_unflip n.name name c)
                      high,
                )) in
            (r, search_left fuel names name begin stop lt n e c ∙ run, good)
      ]
]

-- The search over the whole array.
search_all :
    (names : List HandleName) (name : Text)
    → IsSorted names
    → (r : Found) × (search_name (suc (length names)) names name 0 (length names) ≡ some r)
      × IsAnswer names name r
search_all names name s =
    search_name_lem (suc (length names)) names name 0 (length names) s (omega arith) (omega arith)
      (omega arith) tt (rw (drop-length names) tt)

absent :
    (names : List HandleName) (name : Text) (i : ℕ)
    → Precede name (take i names)
    → Follow name (drop i names)
    → find_name name names ≡ none
unfolding find_name
absent [] name i b f = refl
absent (n ∷ ns) name zero b f = find_name-Follow name (n ∷ ns) f
absent (n ∷ ns) name (suc i) b f = rw (b.0, find_name) (absent ns name i b.1 f)

-- what `skynet_handle_findname` answers for a name that a walk finds or does not find
abbrev pub or_zero : Option ℕ → ℕ
or_zero none = 0
or_zero (some h) = h

findname_of :
    (name : Text) (s : Storage) (r : Found)
    → search_name (suc (length s.name)) s.name name 0 (length s.name) ≡ some r
    → IsAnswer s.name name r
    → findname name s ≡ some (or_zero (find_name name s.name))
unfolding findname
findname_of name s (hit h) run good = rw (run, findname, good)
findname_of name s (miss i) run good = rw (run, findname, absent s.name name i good.0 good.1)

-- `skynet_handle_findname` on a sorted array ends, and answers with the handle of the name, or 0 if
-- no entry has it.
pub findname_lem :
    (name : Text) (s : Storage)
    → IsSorted s.name
    → findname name s ≡ some (or_zero (find_name name s.name))
findname_lem name s sorted =
    let (r, run, good) = search_all s.name name sorted in findname_of name s r run good

insert_returns :
    (name : Text) (handle i : ℕ) (s : Storage)
    → s.name_cap ≤ 2 ^ 29
    → (cap : ℕ) × (insert_name_before name handle i s
        ≡ some (record s {
          name = take i s.name ++ (record { name = name; handle = handle } ∷ drop i s.name);
          name_cap = cap;
        }))
unfolding insert_name_before
insert_returns name handle i s small = elim (dec_lt (length s.name) s.name_cap) [
  | yes p ↦ (s.name_cap, ground arith)
  | no p ↦ (s.name_cap * 2, ground arith)
]

-- What `skynet_handle_namehandle` did with a name that was free.
pub record Named (handle : ℕ) (name : Text) (s s' : Storage) : Type 0 where
  pub returns : namehandle handle name s ≡ some (true, s')
  pub sorted : IsSorted s'.name
  pub found :
      (q : Text)
      → find_name q s'.name ≡ elim (strcmp name q) [ same ↦ some handle | _ ↦ find_name q s.name ]
  pub slots : (s'.slot ≡ s.slot) × (s'.slot_size ≡ s.slot_size) × (s'.harbor ≡ s.harbor)

namehandle_hit :
    (handle h : ℕ) (name : Text) (s : Storage)
    → search_name (suc (length s.name)) s.name name 0 (length s.name) ≡ some (hit h)
    → namehandle handle name s ≡ some (false, s)
unfolding namehandle
namehandle_hit handle h name s run = rw (run, namehandle)

namehandle_miss :
    (handle i : ℕ) (name : Text) (s s' : Storage)
    → search_name (suc (length s.name)) s.name name 0 (length s.name) ≡ some (miss i)
    → insert_name_before name handle i s ≡ some s'
    → namehandle handle name s ≡ some (true, s')
unfolding namehandle
namehandle_miss handle i name s s' run e = rw (run, namehandle, e)

namehandle_of :
    (handle : ℕ) (name : Text) (s : Storage) (r : Found)
    → IsSorted s.name
    → s.name_cap ≤ 2 ^ 29
    → search_name (suc (length s.name)) s.name name 0 (length s.name) ≡ some r
    → IsAnswer s.name name r
    → ((h : ℕ) × (find_name name s.name ≡ some h) × (namehandle handle name s ≡ some (false, s)))
      ⊎ ((find_name name s.name ≡ none) × ((s' : Storage) × Named handle name s s'))
namehandle_of handle name s (hit h) sorted small run good =
    inl (h, good, namehandle_hit handle h name s run)
namehandle_of handle name s (miss i) sorted small run good =
    let (cap, e) = insert_returns name handle i s small in
    let n : HandleName = record { name = name; handle = handle } in
    inr (
      absent s.name name i good.0 good.1,
      (
        _,
        record {
          returns = namehandle_miss handle i name s _ run e;
          sorted = insert-IsSorted s.name i n sorted good.0 good.1;
          found = λ q. find_name-insert s.name i n q good.0;
          slots = (refl, refl, refl);
        },
      ),
    )

-- `skynet_handle_namehandle` on a sorted array ends. A name that is taken is refused and nothing
-- changes; a free one is entered, the array stays sorted, and every other name answers as before.
pub namehandle_lem :
    (handle : ℕ) (name : Text) (s : Storage)
    → IsSorted s.name
    → s.name_cap ≤ 2 ^ 29
    → ((h : ℕ) × (find_name name s.name ≡ some h) × (namehandle handle name s ≡ some (false, s)))
      ⊎ ((find_name name s.name ≡ none) × ((s' : Storage) × Named handle name s s'))
namehandle_lem handle name s sorted small =
    let (r, run, good) = search_all s.name name sorted in
    namehandle_of handle name s r sorted small run good
