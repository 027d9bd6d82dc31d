-- ===== src/Handle/Slots.antt =====
-- The slots of a valid table: which slot a handle has, and what lookups, frees and claims do.
use Prim.Native.Nat.{◌∣◌}
use native.Mathlib.Decide.{ℕ_discrete}
use native.Mathlib.Nat.{
  pow-suc, mod-mod_of_dvd, dvd-mul_left, dvd-mul_right, one-le-pow, pow-le-pow_right,
}
use game_server.Common.{
  ℕ, zero, suc, ◌+◌, ◌-◌, ◌/◌, ◌*◌, ◌%◌, ◌^◌, ◌≤◌, ◌<◌, ◌≡◌, ◌≢◌, inl, inr, refl, sym, ap, ◌∙◌,
  none, some, Option-cases, update, arith,
}
use game_server.Handle.{Context, Storage, init, grab, retire, drop_names}

pow_split : (k j : ℕ) → 2 ^ k * 2 ^ j ≡ 2 ^ (k + j)
pow_split zero j = let e : 0 + j ≡ j = omega arith in rw e (omega arith)
pow_split (suc k) j =
    let e : suc k + j ≡ suc (k + j) = omega arith in
    rw e (grind (arith, pow-suc 2 (k + j), pow_split k j))

-- A slot count: a power of two, at most the number of handles.
abbrev pub IsSize : ℕ → Type 0
IsSize n = (k : ℕ) × (n ≡ 2 ^ k) × (k ≤ 24)

size-dvd : (n : ℕ) → IsSize n → n ∣ 2 ^ 24
size-dvd n (k, e, h) =
    let f : 24 - k + k ≡ 24 = omega arith in
    rw (e, ← (ap (λ (i : ℕ). 2 ^ i) f), ← pow_split (24 - k) k)
      (dvd-mul_left (2 ^ k) (2 ^ (24 - k)))

pub size_pos : (n : ℕ) → IsSize n → 0 < n
size_pos n (k, e, h) = rw e (one-le-pow k 2 (omega arith))

pub size_le : (n : ℕ) → IsSize n → n ≤ 2 ^ 24
size_le n (k, e, h) = rw e (pow-le-pow_right {n = 2} (omega arith) h)

-- The slot of a number is that of its low 24 bits.
pub size-mod : (n x : ℕ) → IsSize n → x % 2 ^ 24 % n ≡ x % n
size-mod n x h = mod-mod_of_dvd n x (size-dvd n h)

-- The harbor's bits do not count.
pub mod-harbor : (n x b : ℕ) → IsSize n → b % 2 ^ 24 ≡ 0 → (x + b) % n ≡ x % n
mod-harbor n x b h e =
    sym (size-mod n (x + b) h)
    ∙ ap (λ k. k % n) (let q : (x + b) % 2 ^ 24 ≡ x % 2 ^ 24 = omega arith in q)
    ∙ size-mod n x h

pub double-IsSize : (n : ℕ) → IsSize n → n * 2 ≤ 2 ^ 24 → IsSize (n * 2)
double-IsSize n (k, e, h) le = (
  suc k,
  rw pow-suc (omega arith),
  elim (ℕ_discrete k 24) [
    | yes q ↦ absurd (omega (arith, e ∙ ap (λ (i : ℕ). 2 ^ i) q))
    | no q ↦ omega arith
  ],
)

-- Slots of a table of twice the size lie in two halves over the old ones.
pub mod-double : (n x : ℕ) → x % (n * 2) % n ≡ x % n
mod-double n x = mod-mod_of_dvd n x (dvd-mul_right n 2)

-- What holds of the table between calls.
pub record IsValid (s : Storage) : Type 0 where
  pub size : IsSize s.slot_size
  pub harbor : s.harbor % 2 ^ 24 ≡ 0
  pub index : s.handle_index ≤ 2 ^ 24
  pub placed :
      (i : ℕ) (c : Context)
      → s.slot i ≡ some c
      → (i < s.slot_size) × (c.handle % s.slot_size ≡ i) × (c.handle / 2 ^ 24 * 2 ^ 24 ≡ s.harbor)

pub init-IsValid : (harbor : ℕ) → IsValid (init harbor)
unfolding init
init-IsValid harbor = record {
  size = (2, refl, omega arith);
  harbor = omega arith;
  index = omega arith;
  placed = λ i c e. cc;
}

-- A handle is looked up in its own slot: two services never answer to one handle.
pub grab-placed :
    (s : Storage) (i : ℕ) (c : Context) → IsValid s → s.slot i ≡ some c → grab c.handle s ≡ some c
unfolding grab
grab-placed s i c v e = let (lt, m, hb) = v.placed i c e in rw (m, grab, e) (ground arith)

-- What a successful lookup shows.
pub grab-some :
    (h : ℕ) (s : Storage) (c : Context)
    → grab h s ≡ some c
    → (s.slot (h % s.slot_size) ≡ some c) × (c.handle ≡ h)
unfolding grab
grab-some h s c e = ground arith

abbrev emptied : ℕ → Storage → Storage
emptied handle s = record s {
  slot = update s.slot (handle % s.slot_size) none;
  name = drop_names handle s.name;
}

retire-none : (handle : ℕ) (s : Storage) → grab handle s ≡ none → retire handle s ≡ (none, s)
unfolding retire
retire-none handle s e = rw (e, retire)

retire-some :
    (handle : ℕ) (s : Storage) (c : Context)
    → grab handle s ≡ some c
    → retire handle s ≡ (some c, emptied handle s)
unfolding retire
retire-some handle s c e = rw (e, retire)

emptied-IsValid : (handle : ℕ) (s : Storage) → IsValid s → IsValid (emptied handle s)
emptied-IsValid handle s v = record {
  size = v.size;
  harbor = v.harbor;
  index = v.index;
  placed = λ i c e. ground (arith, v.placed i c);
}

grab-emptied :
    (handle h : ℕ) (s : Storage) (c : Context)
    → grab handle s ≡ some c
    → h ≢ handle
    → grab h (emptied handle s) ≡ grab h s
unfolding grab
grab-emptied handle h s c e ne = ground arith

grab-emptied_self : (handle : ℕ) (s : Storage) → grab handle (emptied handle s) ≡ none
unfolding grab
grab-emptied_self handle s = ground arith

-- `skynet_handle_retire` gives the service that a lookup would, keeps the table valid, and from then
-- on the handle, and no other, is unknown.
pub retire_lem :
    (handle : ℕ) (s : Storage)
    → IsValid s
    → let (c, s') = retire handle s in
      (c ≡ grab handle s)
      × IsValid s'
      × (grab handle s' ≡ none)
      × ((h : ℕ) → h ≢ handle → grab h s' ≡ grab h s)
retire_lem handle s v = elim (Option-cases (grab handle s)) [
  | inl e ↦ rw (retire-none handle s e) (sym e, v, e, λ h ne. refl)
  | inr (c, e) ↦ rw (retire-some handle s c e) (
    sym e,
    emptied-IsValid handle s v,
    grab-emptied_self handle s,
    λ h ne. grab-emptied handle h s c e ne,
  )
]
