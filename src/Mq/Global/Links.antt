-- ===== src/Mq/Global/Links.antt =====
-- A list of addresses that the fields `next` link, and its change at both ends.
use mathlib.Core.Path.{subst}
use game_server.Common.{
  ℕ, ◌≡◌, ◌≢◌, refl, sym, ap, ◌∙◌, ◌⊎◌, inl, inr, Option, none, some, List, [], ◌∷◌, ◌++◌, In,
  arith,
}

abbrev pub first : List ℕ → Option ℕ
first [] = none
first (x ∷ xs) = some x

abbrev pub last : List ℕ → Option ℕ
last [] = none
last (x ∷ []) = some x
last (x ∷ y ∷ xs) = last (y ∷ xs)

abbrev pub Nodup : List ℕ → Type 0
Nodup [] = Unit
Nodup (x ∷ xs) = ¬ In x xs × Nodup xs

-- `next` of each queue is the one behind it in the list.
abbrev pub Links : (ℕ → Option (Option ℕ)) → List ℕ → Type 0
Links next [] = Unit
Links next (x ∷ xs) = (next x ≡ some (first xs)) × Links next xs

pub last-In : (xs : List ℕ) (t : ℕ) → last xs ≡ some t → In t xs
last-In [] t e = absurd (cc)
last-In (x ∷ []) t e = inl (ground arith)
last-In (x ∷ y ∷ xs) t e = inr (last-In (y ∷ xs) t e)

pub last-some : (x : ℕ) (xs : List ℕ) → (t : ℕ) × (last (x ∷ xs) ≡ some t)
last-some x [] = (x, refl)
last-some x (y ∷ xs) = last-some y xs

pub last_snoc : (xs : List ℕ) (a : ℕ) → last (xs ++ (a ∷ [])) ≡ some a
last_snoc [] a = refl
last_snoc (x ∷ []) a = refl
last_snoc (x ∷ y ∷ xs) a = last_snoc (y ∷ xs) a

pub In-snoc : (xs : List ℕ) (a b : ℕ) → In b (xs ++ (a ∷ [])) → In b xs ⊎ (b ≡ a)
In-snoc [] a b (inl e) = inr e
In-snoc [] a b (inr h) = elim h [ ]
In-snoc (x ∷ xs) a b (inl e) = inl (inl e)
In-snoc (x ∷ xs) a b (inr h) = elim (In-snoc xs a b h) [ inl i ↦ inl (inr i) | inr e ↦ inr e ]

pub Nodup-snoc : (xs : List ℕ) (a : ℕ) → Nodup xs → ¬ In a xs → Nodup (xs ++ (a ∷ []))
Nodup-snoc [] a d n = ((λ h. h), tt)
Nodup-snoc (x ∷ xs) a d n = (
  λ h. elim (In-snoc xs a x h) [ inl i ↦ d.0 i | inr e ↦ n (inl (sym e)) ],
  Nodup-snoc xs a d.1 (λ h. n (inr h)),
)

-- A change of `next` outside the list leaves the links.
pub Links-same :
    (f g : ℕ → Option (Option ℕ)) (xs : List ℕ)
    → ((a : ℕ) → In a xs → g a ≡ f a)
    → Links f xs
    → Links g xs
Links-same f g [] h l = tt
Links-same f g (x ∷ xs) h l = (h x (inl refl) ∙ l.0, Links-same f g xs (λ a i. h a (inr i)) l.1)

-- The end of the list gets a `next`: a queue with none of its own comes behind it.
pub Links-snoc :
    (f g : ℕ → Option (Option ℕ)) (xs : List ℕ) (t a : ℕ)
    → Links f xs
    → Nodup xs
    → ¬ In a xs
    → last xs ≡ some t
    → f a ≡ some none
    → g t ≡ some (some a)
    → ((b : ℕ) → b ≢ t → g b ≡ f b)
    → Links g (xs ++ (a ∷ []))
Links-snoc f g [] t a l d n e fa gt same = absurd (cc)
Links-snoc f g (x ∷ []) t a l d n e fa gt same =
    let x_t : x ≡ t = ground arith in
    (ap g x_t ∙ gt, (same a (λ a_t. n (inl (a_t ∙ sym x_t))) ∙ fa, tt))
Links-snoc f g (x ∷ y ∷ xs) t a l d n e fa gt same =
    let x_ne : x ≢ t = λ x_t. d.0 (subst (λ k. In k (y ∷ xs)) (sym x_t) (last-In (y ∷ xs) t e)) in
    (same x x_ne ∙ l.0, Links-snoc f g (y ∷ xs) t a l.1 d.1 (λ i. n (inr i)) e fa gt same)
