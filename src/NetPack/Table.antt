-- ===== src/NetPack/Table.antt =====
-- The packets that are not complete: at most one for a socket, found by its id.
use native.Mathlib.Decide.{ℕ_discrete}
use mathlib.Core.Path.{subst}
use game_server.Common.{
  ℕ, ◌^◌, ◌<◌, ◌≡◌, ◌≢◌, refl, sym, ◌∙◌, Option, none, some, List, [], ◌∷◌, length, ◌==◌,
  if◌then◌else◌, arith,
}
use game_server.NetPack.{
  get_queue, Netpack, Progress, header_only, filling, Uncomplete, PackQueue, hash_fd,
  find_uncomplete, unlink, save_uncomplete, close_uncomplete, push_data, expand_queue,
}

abbrev pub pending : PackQueue → ℕ → Option Progress
pending q fd = find_uncomplete fd (q.hash (hash_fd fd))

-- a packet of which the end is missing
abbrev pub Partial : Progress → Type 0
Partial (header_only h) = h < 2 ^ 8
Partial (filling size got) = (size < 2 ^ 16) × length got < size

pub record IsTable (q : PackQueue) : Type 0 where
  pub once : (fd : ℕ) → find_uncomplete fd (unlink fd (q.hash (hash_fd fd))) ≡ none
  pub partial : (fd : ℕ) (p : Progress) → pending q fd ≡ some p → Partial p

-- Taking out the entry of one socket leaves what is found for another.
find_uncomplete-unlink :
    (fd fd' : ℕ) (ucs : List Uncomplete)
    → fd' ≢ fd
    → find_uncomplete fd' (unlink fd ucs) ≡ find_uncomplete fd' ucs
unfolding find_uncomplete unlink
find_uncomplete-unlink fd fd' [] ne = refl
find_uncomplete-unlink fd fd' (uc ∷ ucs) ne = ground (arith, find_uncomplete-unlink fd fd' ucs ne)

unlink_comm :
    (fd fd' : ℕ) (ucs : List Uncomplete)
    → fd' ≢ fd
    → unlink fd' (unlink fd ucs) ≡ unlink fd (unlink fd' ucs)
unfolding unlink
unlink_comm fd fd' [] ne = refl
unlink_comm fd fd' (uc ∷ ucs) ne = ground (arith, unlink_comm fd fd' ucs ne)

-- What `close_uncomplete` does, which is also how `filter_data_` takes an entry out: nothing is left for
-- the socket, and all other sockets keep theirs.
pub pending-close_uncomplete :
    (fd fd' : ℕ) {q : PackQueue}
    → IsTable q
    → pending (close_uncomplete fd q) fd' ≡ (if fd' == fd then none else pending q fd')
unfolding close_uncomplete
pending-close_uncomplete fd fd' {q} v = elim (ℕ_discrete fd' fd) [
  | yes e ↦ rw e (ground (arith, v.once fd))
  | no ne ↦ ground (arith, find_uncomplete-unlink fd fd' (q.hash (hash_fd fd)) ne)
]

unlink_absent :
    (fd : ℕ) (ucs : List Uncomplete) → find_uncomplete fd ucs ≡ none → unlink fd ucs ≡ ucs
unfolding find_uncomplete unlink
unlink_absent fd [] h = refl
unlink_absent fd (uc ∷ ucs) h = ground (arith, unlink_absent fd ucs)

-- A chain with at most one entry for a socket is such a chain without an entry, too.
once-unlink :
    (fd fd' : ℕ) (ucs : List Uncomplete)
    → find_uncomplete fd (unlink fd ucs) ≡ none
    → find_uncomplete fd' (unlink fd' ucs) ≡ none
    → find_uncomplete fd' (unlink fd' (unlink fd ucs)) ≡ none
once-unlink fd fd' ucs h k = elim (ℕ_discrete fd' fd) [
  | yes e ↦ rw (e, unlink_absent fd (unlink fd ucs) h) h
  | no ne ↦ rw (unlink_comm fd fd' ucs ne, find_uncomplete-unlink fd fd' (unlink fd' ucs) ne) k
]

once-close_uncomplete :
    (fd fd' : ℕ) {q : PackQueue}
    → IsTable q
    → find_uncomplete fd' (unlink fd' ((close_uncomplete fd q).hash (hash_fd fd'))) ≡ none
unfolding close_uncomplete
once-close_uncomplete fd fd' {q} v = elim (ℕ_discrete (hash_fd fd') (hash_fd fd)) [
  | yes h ↦
      let here : find_uncomplete fd' (unlink fd' (unlink fd (q.hash (hash_fd fd)))) ≡ none =
        once-unlink fd fd' (q.hash (hash_fd fd)) (v.once fd)
          (subst (λ k. find_uncomplete fd' (unlink fd' (q.hash k)) ≡ none) h (v.once fd')) in
      ground arith
  | no h ↦ ground (arith, v.once fd')
]

pub close_uncomplete-IsTable :
    (fd : ℕ) {q : PackQueue} → IsTable q → IsTable (close_uncomplete fd q)
close_uncomplete-IsTable fd {q} v = record {
  once = λ fd'. once-close_uncomplete fd fd' v;
  partial = λ fd' p e. ground (arith, pending-close_uncomplete fd fd' v, v.partial fd' p);
}

-- After `save_uncomplete` for a socket without an entry, the entry is found, and all others as before.
pub pending-save_uncomplete :
    (fd fd' : ℕ) (p : Progress) (q : PackQueue)
    → pending (save_uncomplete fd p q) fd' ≡ (if fd' == fd then some p else pending q fd')
unfolding save_uncomplete find_uncomplete
pending-save_uncomplete fd fd' p q = ground arith

once-save_uncomplete :
    (fd fd' : ℕ) (p : Progress) {q : PackQueue}
    → IsTable q
    → pending q fd ≡ none
    → find_uncomplete fd' (unlink fd' ((save_uncomplete fd p q).hash (hash_fd fd'))) ≡ none
unfolding save_uncomplete unlink find_uncomplete
once-save_uncomplete fd fd' p {q} v h = ground (arith, v.once fd')

saved-Partial :
    (fd fd' : ℕ) (p p' : Progress) {q : PackQueue}
    → IsTable q
    → Partial p
    → pending (save_uncomplete fd p q) fd' ≡ some p'
    → Partial p'
saved-Partial fd fd' p p' {q} v k e =
    let found : (if fd' == fd then some p else pending q fd') ≡ some p' =
      sym (pending-save_uncomplete fd fd' p q) ∙ e in
    elim (ℕ_discrete fd' fd) [
      | yes d ↦ let same : p ≡ p' = ground arith in subst Partial same k
      | no d ↦ v.partial fd' p' (ground arith)
    ]

pub save_uncomplete-IsTable :
    (fd : ℕ) (p : Progress) {q : PackQueue}
    → IsTable q
    → pending q fd ≡ none
    → Partial p
    → IsTable (save_uncomplete fd p q)
save_uncomplete-IsTable fd p {q} v h k = record {
  once = λ fd'. once-save_uncomplete fd fd' p v h;
  partial = λ fd' p' e. saved-Partial fd fd' p p' v k e;
}

-- A change of the ring alone leaves the table.
pub hash-push_data : (np : Netpack) (q : PackQueue) → (push_data np q).hash ≡ q.hash
unfolding push_data expand_queue
hash-push_data np q = ground arith

pub pending-get_queue : (cells : ℕ → Netpack) (fd : ℕ) → pending (get_queue cells) fd ≡ none
unfolding get_queue find_uncomplete
pending-get_queue cells fd = refl

pub get_queue-IsTable : (cells : ℕ → Netpack) → IsTable (get_queue cells)
unfolding get_queue find_uncomplete unlink
get_queue-IsTable cells = record { once = λ fd. refl; partial = λ fd p e. absurd (ground arith) }
