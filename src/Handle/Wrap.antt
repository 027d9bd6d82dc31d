-- ===== src/Handle/Wrap.antt =====
-- Services that are started and ended one after the other, until the index has gone through all
-- `2 ^ 24` handles.
use game_server.Common.{
  ℕ, zero, suc, ◌+◌, ◌*◌, ◌%◌, ◌^◌, ◌<◌, ◌≡◌, refl, ◌∙◌, ap, sym, Option, none, some, arith,
}
use game_server.Handle.{Storage, init, find_free, occupy, register, grab, retire}

-- One service is started and ended.
pub restart : ℕ → Storage → Option Storage
restart address s = elim (register 1 address s) [
  | none ↦ none
  | some (handle, s') ↦ some (retire handle s').1
]

-- So many of them, one after the other.
pub restarts : ℕ → ℕ → Storage → Option Storage
restarts address zero s = some s
restarts address (suc n) s = elim (restarts address n s) [
  | none ↦ none
  | some s' ↦ restart address s'
]

-- the handle that the service after `n` others gets on the node of a harbor id
abbrev pub nth_handle : ℕ → ℕ → ℕ
nth_handle id n = (n + 1) % 2 ^ 24 + id % 2 ^ 8 * 2 ^ 24

-- The table between two services: it is empty, and the index is at the next handle.
record Between (id n : ℕ) (s : Storage) : Type 0 where
  harbor : s.harbor ≡ id % 2 ^ 8 * 2 ^ 24
  index : s.handle_index ≡ n % 2 ^ 24 + 1
  size : s.slot_size ≡ 4
  free : (k : ℕ) → s.slot k ≡ none

init-Between : (id : ℕ) → Between id 0 (init id)
unfolding init
init-Between id = record { harbor = refl; index = refl; size = refl; free = λ k. refl }

find_free_first :
    (s : Storage) (size h : ℕ)
    → 0 < size
    → s.handle_index < 2 ^ 32
    → s.handle_index % 2 ^ 24 ≡ h
    → ((k : ℕ) → s.slot k ≡ none)
    → find_free size 0 s ≡ some h
unfolding find_free
find_free_first s zero h pos lt e free = absurd (omega arith)
find_free_first s (suc n) h pos lt e free =
    let first : (0 + s.handle_index) % 2 ^ 32 % 2 ^ 24 ≡ h = omega arith in
    rw (find_free, first, free (h % s.slot_size)) (ap some first)

register-Between :
    (id n address : ℕ) (s : Storage)
    → Between id n s
    → register 1 address s ≡ some (occupy address ((n + 1) % 2 ^ 24) s)
unfolding register
register-Between id n address s b =
    let first =
      find_free_first s s.slot_size ((n + 1) % 2 ^ 24) (omega (arith, b.size))
        (omega (arith, b.index)) (omega (arith, b.index)) b.free in
    rw (register, first) refl

-- The service that has just been registered is found, and its slot is freed.
retire-Between :
    (id n address : ℕ) (s : Storage)
    → Between id n s
    → Between id
        (suc n)
        (retire ((n + 1) % 2 ^ 24 + s.harbor) (occupy address ((n + 1) % 2 ^ 24) s).1).1
unfolding retire grab occupy
retire-Between id n address s b =
    let h : ℕ = (n + 1) % 2 ^ 24 in
    let after : Storage = (occupy address h s).1 in
    let same : (h + s.harbor) % s.slot_size ≡ h % s.slot_size =
      ap (λ k. (h + s.harbor) % k) b.size
      ∙ omega (arith, b.harbor)
      ∙ ap (λ k. h % k) (sym b.size) in
    let found : grab (h + s.harbor) after
        ≡ some (record { address = address; handle = h + s.harbor }) =
      ground (arith, same) in
    rw (retire, found)
      (record {
        harbor = b.harbor;
        index = omega arith;
        size = b.size;
        free = λ k. ground (arith, same, b.free k);
      })

restart-Between :
    (id n address : ℕ) (s : Storage)
    → Between id n s
    → (s' : Storage) × (restart address s ≡ some s') × Between id (suc n) s'
unfolding restart occupy
restart-Between id n address s b = (
  (retire ((n + 1) % 2 ^ 24 + s.harbor) (occupy address ((n + 1) % 2 ^ 24) s).1).1,
  rw (restart, register-Between id n address s b) refl,
  retire-Between id n address s b,
)

restarts-Between :
    (id address n : ℕ) → (s : Storage) × (restarts address n (init id) ≡ some s) × Between id n s
unfolding restarts
restarts-Between id address zero = (init id, refl, init-Between id)
restarts-Between id address (suc n) =
    let (s, run, b) = restarts-Between id address n in
    let (s', next, b') = restart-Between id n address s b in (s', rw (restarts, run) next, b')

-- From `skynet_handle_init` on, let any number `n` of services be started and ended, each before the
-- next: every call of `skynet_handle_register` returns, and the service after them gets the handle
-- `(n + 1) % 2^24` with the bits of the harbor. So the handle without a local part comes up after
-- `2^24 - 1` services, and where the harbor id is 0 it is the handle 0, which `skynet_handle_init`
-- means to reserve for the system.
pub register-restarts :
    (id n address next : ℕ)
    → (s : Storage) × (s' : Storage) × (restarts address n (init id) ≡ some s)
      × (register 1 next s ≡ some (nth_handle id n, s'))
unfolding occupy
register-restarts id n address next =
    let (s, run, b) = restarts-Between id address n in
    let h : ℕ = (n + 1) % 2 ^ 24 in
    (
      s,
      (occupy next h s).1,
      run,
      register-Between id n next s b ∙ ap (λ k. some (h + k, (occupy next h s).1)) b.harbor,
    )
