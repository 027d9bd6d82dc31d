-- ===== src/NetPack/Split.antt =====
-- The splitter undoes `lpack`: the bytes of a socket are the packed packets that came out, and the
-- part of one that is kept, however the bytes were split.
use game_server.Common.{
  ℕ, ◌+◌, ◌*◌, ◌/◌, ◌%◌, ◌^◌, ◌<◌, ◌≡◌, ◌≢◌, refl, sym, ap, ◌∙◌, Option, none, some, List, [], ◌∷◌,
  ◌++◌, map, append-nil, append_assoc, length, All, arith,
}
use game_server.NetPack.{
  Netpack, Progress, header_only, filling, PackQueue, push_data, save_uncomplete, netpack,
  read_size, write_size, lpack,
}
use game_server.NetPack.Ready.{ready, IsRing, ready-push_data}
use game_server.NetPack.Table.{
  pending, Partial, IsTable, save_uncomplete-IsTable, pending-save_uncomplete, hash-push_data,
}

-- a packet as `lpack` writes it
abbrev pub frame : List ℕ → List ℕ
frame bytes = write_size (length bytes) ++ bytes

abbrev pub frames : List (List ℕ) → List ℕ
frames [] = []
frames (p ∷ ps) = frame p ++ frames ps

-- the bytes that a socket has delivered of a packet
abbrev pub kept_bytes : Option Progress → List ℕ
kept_bytes none = []
kept_bytes (some (header_only h)) = h ∷ []
kept_bytes (some (filling size got)) = write_size size ++ got

abbrev pub pack_of : ℕ → List ℕ → Netpack
pack_of fd bytes = netpack fd (length bytes) bytes

abbrev pub Bytes : List ℕ → Type 0
Bytes = All (λ b. b < 2 ^ 8)

abbrev pub Packable : List (List ℕ) → Type 0
Packable = All (λ p. lpack p ≡ some (frame p))

-- What has become of the bytes `before` of the socket: packets that were queued, packets that were
-- handed out at once, and a part that is kept.
pub record Outcome (fd : ℕ) (before : List ℕ) (q q' : PackQueue) (direct : List (List ℕ))
    : Type 0 where
  pub packs : List (List ℕ)
  pub ring : IsRing q'
  pub table : IsTable q'
  pub queued : ready q' ≡ ready q ++ map (pack_of fd) packs
  pub bytes : before ≡ frames (packs ++ direct) ++ kept_bytes (pending q' fd)
  pub packable : Packable (packs ++ direct)
  pub others : (fd' : ℕ) → fd' ≢ fd → pending q' fd' ≡ pending q fd'

pub lpack-frame : (p : List ℕ) → length p < 2 ^ 16 → lpack p ≡ some (frame p)
unfolding lpack
lpack-frame p h = ground arith

pub write_size-read_size :
    (a b : ℕ) → a < 2 ^ 8 → b < 2 ^ 8 → write_size (read_size a b) ≡ a ∷ b ∷ []
write_size-read_size a b ha hb =
    let x : (a * 2 ^ 8 + b) / 2 ^ 8 % 2 ^ 8 ≡ a = omega arith in
    let y : (a * 2 ^ 8 + b) % 2 ^ 8 ≡ b = omega arith in rw (x, y) refl

-- Nothing is left, nothing is kept.
pub none-Outcome :
    (fd : ℕ) (q : PackQueue) → IsRing q → IsTable q → pending q fd ≡ none → Outcome fd [] q q []
none-Outcome fd q r t e = record {
  packs = [];
  ring = r;
  table = t;
  queued = sym (append-nil (ready q));
  bytes = ap kept_bytes (sym e);
  packable = tt;
  others = λ fd' ne. refl;
}

-- A part of a packet is kept by `save_uncomplete`.
pub save-Outcome :
    (fd : ℕ) (p : Progress) (q : PackQueue)
    → IsRing q
    → IsTable q
    → pending q fd ≡ none
    → Partial p
    → Outcome fd (kept_bytes (some p)) q (save_uncomplete fd p q) []
unfolding ready save_uncomplete
save-Outcome fd p q r t e k = record {
  packs = [];
  ring = record { head_in = r.head_in; tail_in = r.tail_in };
  table = save_uncomplete-IsTable fd p t e k;
  queued = sym (append-nil (ready q));
  bytes = ap kept_bytes (
      let f : some p ≡ pending (save_uncomplete fd p q) fd =
        ground (arith, pending-save_uncomplete fd fd p q) in
      f);
  packable = tt;
  others = λ fd' ne. ground (arith, pending-save_uncomplete fd fd' p q);
}

pub push_data-IsTable : {q : PackQueue} (np : Netpack) → IsTable q → IsTable (push_data np q)
push_data-IsTable {q} np t = record {
  once = rw (hash-push_data np q) t.once;
  partial = rw (hash-push_data np q) t.partial;
}

pub pending-push_data :
    (np : Netpack) (q : PackQueue) (fd : ℕ) → pending (push_data np q) fd ≡ pending q fd
pending-push_data np q fd = rw (hash-push_data np q) refl

-- A packet is queued in front of all that comes after.
pub push-Outcome :
    (fd : ℕ) (p before : List ℕ) {q q' : PackQueue} {direct : List (List ℕ)}
    → IsRing q
    → length p < 2 ^ 16
    → Outcome fd before (push_data (pack_of fd p) q) q' direct
    → Outcome fd (frame p ++ before) q q' direct
push-Outcome fd p before {q} {q'} {direct} r h o = record {
  packs = p ∷ o.packs;
  ring = o.ring;
  table = o.table;
  queued =
      o.queued
      ∙ ap (λ l. l ++ map (pack_of fd) o.packs) (ready-push_data (pack_of fd p) r)
      ∙ append_assoc (ready q) (pack_of fd p ∷ []) (map (pack_of fd) o.packs);
  bytes =
      ap (λ l. frame p ++ l) o.bytes
      ∙ sym (append_assoc (frame p) (frames (o.packs ++ direct)) (kept_bytes (pending q' fd)));
  packable = (lpack-frame p h, o.packable);
  others = λ fd' ne. o.others fd' ne ∙ pending-push_data (pack_of fd p) q fd';
}
