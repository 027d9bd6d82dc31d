-- ===== src/Handle/Names.antt =====
-- The order of names, and the name array as a sorted list.
use mathlib.Core.Path.{subst}
use game_server.Common.{
  ℕ, zero, suc, ◌<◌, ◌≡◌, inl, inr, refl, ap, Bool-cases, Option, none, some, List, [], ◌∷◌, ◌++◌,
  length, take, drop, All, All-append, ◌==◌, if◌then◌else◌, arith,
}
use game_server.Handle.{Text, HandleName, before, same, after, strcmp, name_at, drop_names}

pub strcmp_refl : (a : Text) → strcmp a a ≡ same
unfolding strcmp
strcmp_refl [] = refl
strcmp_refl (x ∷ xs) = ground (arith, strcmp_refl xs)

pub eq_of_same : (a b : Text) → strcmp a b ≡ same → a ≡ b
unfolding strcmp
eq_of_same [] [] h = refl
eq_of_same [] (y ∷ ys) h = cc
eq_of_same (x ∷ xs) [] h = cc
eq_of_same (x ∷ xs) (y ∷ ys) h = ground (arith, eq_of_same xs ys)

pub strcmp_flip : (a b : Text) → strcmp a b ≡ before → strcmp b a ≡ after
unfolding strcmp
strcmp_flip [] [] h = cc
strcmp_flip [] (y ∷ ys) h = refl
strcmp_flip (x ∷ xs) [] h = cc
strcmp_flip (x ∷ xs) (y ∷ ys) h = ground (arith, strcmp_flip xs ys)

pub strcmp_unflip : (a b : Text) → strcmp a b ≡ after → strcmp b a ≡ before
unfolding strcmp
strcmp_unflip [] [] h = cc
strcmp_unflip [] (y ∷ ys) h = cc
strcmp_unflip (x ∷ xs) [] h = refl
strcmp_unflip (x ∷ xs) (y ∷ ys) h = ground (arith, strcmp_unflip xs ys)

pub strcmp_trans : (a b c : Text) → strcmp a b ≡ before → strcmp b c ≡ before → strcmp a c ≡ before
unfolding strcmp
strcmp_trans [] [] c h k = cc
strcmp_trans [] (y ∷ ys) [] h k = cc
strcmp_trans [] (y ∷ ys) (z ∷ zs) h k = refl
strcmp_trans (x ∷ xs) [] c h k = cc
strcmp_trans (x ∷ xs) (y ∷ ys) [] h k = cc
strcmp_trans (x ∷ xs) (y ∷ ys) (z ∷ zs) h k = ground (arith, strcmp_trans xs ys zs)

-- Every entry lies before the name; after it.
abbrev pub Precede : Text → List HandleName → Type 0
Precede name = All (λ n. strcmp n.name name ≡ before)

abbrev pub Follow : Text → List HandleName → Type 0
Follow name = All (λ n. strcmp n.name name ≡ after)

-- In order, with no name twice.
abbrev pub IsSorted : List HandleName → Type 0
IsSorted [] = Unit
IsSorted (n ∷ ns) = Follow n.name ns × IsSorted ns

-- The handle of a name, by a plain walk: what the array means.
unfoldable pub find_name : Text → List HandleName → Option ℕ
find_name name [] = none
find_name name (n ∷ ns) = elim (strcmp n.name name) [ same ↦ some n.handle | _ ↦ find_name name ns ]

pub find_name-Precede :
    (name : Text) (ns : List HandleName) → Precede name ns → find_name name ns ≡ none
unfolding find_name
find_name-Precede name [] h = refl
find_name-Precede name (n ∷ ns) h = rw (h.0, find_name) (find_name-Precede name ns h.1)

pub find_name-Follow :
    (name : Text) (ns : List HandleName) → Follow name ns → find_name name ns ≡ none
unfolding find_name
find_name-Follow name [] h = refl
find_name-Follow name (n ∷ ns) h = rw (h.0, find_name) (find_name-Follow name ns h.1)

pub Follow-trans :
    (a b : Text) (ns : List HandleName) → strcmp a b ≡ before → Follow b ns → Follow a ns
Follow-trans a b [] h f = tt
Follow-trans a b (n ∷ ns) h f = (
  strcmp_flip a n.name (strcmp_trans a b n.name h (strcmp_unflip n.name b f.0)),
  Follow-trans a b ns h f.1,
)

pub Precede-trans :
    (a b : Text) (ns : List HandleName) → strcmp a b ≡ before → Precede a ns → Precede b ns
Precede-trans a b [] h f = tt
Precede-trans a b (n ∷ ns) h f = (strcmp_trans n.name a b f.0 h, Precede-trans a b ns h f.1)

All-name_at {ℓ} :
    (P : HandleName → Type ℓ) (ns : List HandleName) (i : ℕ) (n : HandleName)
    → All P ns
    → name_at ns i ≡ some n
    → P n
unfolding name_at
All-name_at P [] i n h e = cc
All-name_at P (m ∷ ns) zero n h e = subst P (cc) h.0
All-name_at P (m ∷ ns) (suc i) n h e = All-name_at P ns i n h.1 e

-- A sorted array cut at an index with an entry: what stands before it precedes it, what stands after
-- follows it.
pub cut_at :
    (ns : List HandleName) (i : ℕ) (n : HandleName)
    → IsSorted ns
    → name_at ns i ≡ some n
    → Precede n.name (take i ns)
      × (drop i ns ≡ n ∷ drop (suc i) ns)
      × Follow n.name (drop (suc i) ns)
unfolding name_at
cut_at [] i n s e = cc
cut_at (m ∷ ns) zero n s e =
    let q : m ≡ n = cc in (tt, ap (λ k. k ∷ ns) q, subst (λ k. Follow k.name ns) q s.0)
cut_at (m ∷ ns) (suc i) n s e =
    let (b, d, f) = cut_at ns i n s.1 e in
    (
      (
        strcmp_unflip n.name m.name (All-name_at (λ k. strcmp k.name m.name ≡ after) ns i n s.0 e),
        b,
      ),
      d,
      f,
    )

pub All-take-suc {ℓ} :
    (P : HandleName → Type ℓ) (ns : List HandleName) (i : ℕ) (n : HandleName)
    → All P (take i ns)
    → name_at ns i ≡ some n
    → P n
    → All P (take (suc i) ns)
unfolding name_at
All-take-suc P [] i n a e p = cc
All-take-suc P (m ∷ ns) zero n a e p = (subst P (cc) p, tt)
All-take-suc P (m ∷ ns) (suc i) n a e p = (a.0, All-take-suc P ns i n a.1 e p)

-- A sorted array answers with the entry itself under the name of an entry.
pub find_name-name_at :
    (ns : List HandleName) (i : ℕ) (n : HandleName)
    → IsSorted ns
    → name_at ns i ≡ some n
    → find_name n.name ns ≡ some n.handle
unfolding name_at find_name
find_name-name_at [] i n s e = cc
find_name-name_at (m ∷ ns) zero n s e = ground (arith, strcmp_refl n.name)
find_name-name_at (m ∷ ns) (suc i) n s e =
    let b : strcmp m.name n.name ≡ before =
      strcmp_unflip n.name m.name (All-name_at (λ k. strcmp k.name m.name ≡ after) ns i n s.0 e) in
    rw (b, find_name) (find_name-name_at ns i n s.1 e)

-- An index within the array has an entry.
pub name_at_total :
    (ns : List HandleName) (i : ℕ) → i < length ns → (n : HandleName) × (name_at ns i ≡ some n)
unfolding name_at
name_at_total [] i h = absurd (omega arith)
name_at_total (n ∷ ns) zero h = (n, refl)
name_at_total (n ∷ ns) (suc i) h = name_at_total ns i (omega arith)

-- The array with an entry put in at a place where all before precede it and all after follow it.
pub Follow-append :
    (name : Text) (xs ys : List HandleName)
    → Follow name xs
    → Follow name ys
    → Follow name (xs ++ ys)
Follow-append name xs ys f g = All-append (λ n. strcmp n.name name ≡ after) xs ys f g

insert-Follow :
    (k : Text) (ns : List HandleName) (i : ℕ) (n : HandleName)
    → Follow k ns
    → strcmp n.name k ≡ after
    → Follow k (take i ns ++ (n ∷ drop i ns))
insert-Follow k [] zero n f h = (h, tt)
insert-Follow k [] (suc i) n f h = (h, tt)
insert-Follow k (m ∷ ns) zero n f h = (h, f)
insert-Follow k (m ∷ ns) (suc i) n f h = (f.0, insert-Follow k ns i n f.1 h)

pub insert-IsSorted :
    (ns : List HandleName) (i : ℕ) (n : HandleName)
    → IsSorted ns
    → Precede n.name (take i ns)
    → Follow n.name (drop i ns)
    → IsSorted (take i ns ++ (n ∷ drop i ns))
insert-IsSorted [] zero n s b f = (tt, tt)
insert-IsSorted [] (suc i) n s b f = (tt, tt)
insert-IsSorted (m ∷ ns) zero n s b f = (f, s)
insert-IsSorted (m ∷ ns) (suc i) n s b f = (
  insert-Follow m.name ns i n s.0 (strcmp_flip m.name n.name b.0),
  insert-IsSorted ns i n s.1 b.1 f,
)

-- The entry that is put in is found under its name, and every other name as before.
pub find_name-insert :
    (ns : List HandleName) (i : ℕ) (n : HandleName) (q : Text)
    → Precede n.name (take i ns)
    → find_name q (take i ns ++ (n ∷ drop i ns))
      ≡ elim (strcmp n.name q) [ same ↦ some n.handle | _ ↦ find_name q ns ]
unfolding find_name
find_name-insert [] zero n q b = refl
find_name-insert [] (suc i) n q b = refl
find_name-insert (m ∷ ns) zero n q b = refl
find_name-insert (m ∷ ns) (suc i) n q b =
    ground (arith, find_name-insert ns i n q b.1, eq_of_same n.name q, b.0, strcmp_refl q)

-- `skynet_handle_retire` keeps the order, and takes away the names of the handle alone.
drop_names-Follow :
    (k : Text) (h : ℕ) (ns : List HandleName) → Follow k ns → Follow k (drop_names h ns)
unfolding drop_names
drop_names-Follow k h [] f = tt
drop_names-Follow k h (n ∷ ns) f = elim (Bool-cases (n.handle == h)) [
  | inl e ↦ rw e (drop_names-Follow k h ns f.1)
  | inr e ↦ rw e (f.0, drop_names-Follow k h ns f.1)
]

pub drop_names-IsSorted : (h : ℕ) (ns : List HandleName) → IsSorted ns → IsSorted (drop_names h ns)
unfolding drop_names
drop_names-IsSorted h [] s = tt
drop_names-IsSorted h (n ∷ ns) s = elim (Bool-cases (n.handle == h)) [
  | inl e ↦ rw e (drop_names-IsSorted h ns s.1)
  | inr e ↦ rw e (drop_names-Follow n.name h ns s.0, drop_names-IsSorted h ns s.1)
]

-- the answer of a walk, with the answers of one handle taken away
abbrev pub without : ℕ → Option ℕ → Option ℕ
without h none = none
without h (some k) = if k == h then none else some k

only_first :
    (n : HandleName) (ns : List HandleName) (q : Text)
    → Follow n.name ns
    → strcmp n.name q ≡ same
    → find_name q ns ≡ none
only_first n ns q f e = find_name-Follow q ns (subst (λ k. Follow k ns) (eq_of_same n.name q e) f)

find_name-drop_names :
    (h : ℕ) (ns : List HandleName) (q : Text)
    → IsSorted ns
    → find_name q (drop_names h ns) ≡ without h (find_name q ns)
unfolding find_name drop_names
find_name-drop_names h [] q s = refl
find_name-drop_names h (n ∷ ns) q s =
    ground (arith, find_name-drop_names h ns q s.1, only_first n ns q s.0)
