-- ===== src/DataBuffer/Stream.antt =====
-- The buffered bytes as one stream: a read takes its front.
use mathlib.Core.Path.{subst, ap₂}
use native.Mathlib.Decide.{dec_lt, ℕ_discrete}
use game_server.Common.{
  concat, ℕ, ◌+◌, ◌-◌, ◌*◌, ◌≤◌, ◌<◌, ◌≡◌, ◌≢◌, refl, sym, ap, ◌∙◌, none, some, List, [], ◌∷◌, ◌++◌,
  length, take, drop, length-append, length-drop, drop-append_le, drop-append_ge, take-append_le,
  take-append_ge, take-length, drop-drop, drop-nil, arith,
}
use game_server.DataBuffer.{
  DataBuffer, MessagePool, messagepool, return_cell, Rest, read_loop, read,
}

unfoldable pub stream : DataBuffer → List ℕ
stream db = drop db.offset (concat db.messages)

-- the offset lies in the first buffer
abbrev pub InFirst : List (List ℕ) → ℕ → Type 0
InFirst [] offset = offset ≡ 0
InFirst (m ∷ ms) offset = offset ≤ length m

pub record IsValid (db : DataBuffer) : Type 0 where
  pub offset_in : InFirst db.messages db.offset
  pub counted : db.size ≡ length (stream db)

-- No cell is lost: those on the free list and those in the chains make up the blocks.
abbrev pub Accounts : MessagePool → ℕ → Type 0
Accounts mp used = mp.free + used ≡ mp.blocks * messagepool

-- What the loop of `databuffer_read` does to a chain that holds enough bytes.
record Reads (ms : List (List ℕ)) (offset sz : ℕ) (mp : MessagePool) (r : Rest) : Type 0 where
  returns : read_loop ms offset sz mp ≡ some r
  front : r.bytes ≡ take sz (drop offset (concat ms))
  leaves : drop r.offset (concat r.messages) ≡ drop sz (drop offset (concat ms))
  in_first : InFirst r.messages r.offset
  cells : r.pool.free + length r.messages ≡ mp.free + length ms
  blocks : r.pool.blocks ≡ mp.blocks

InFirst-zero : (ms : List (List ℕ)) → InFirst ms 0
InFirst-zero [] = refl
InFirst-zero (m ∷ ms) = omega arith

drop_first :
    (offset : ℕ) (m : List ℕ) (ms : List (List ℕ))
    → offset ≤ length m
    → drop offset (concat (m ∷ ms)) ≡ drop offset m ++ concat ms
drop_first offset m ms h = drop-append_le offset m (concat ms) h

read_inside :
    (m : List ℕ) (ms : List (List ℕ)) (offset sz : ℕ) (mp : MessagePool)
    → sz < length m - offset
    → read_loop (m ∷ ms) offset sz mp
      ≡ some (record {
        bytes = take sz (drop offset m);
        messages = m ∷ ms;
        offset = offset + sz;
        pool = mp;
      })
unfolding read_loop
read_inside m ms offset sz mp h = ground arith

read_exact :
    (m : List ℕ) (ms : List (List ℕ)) (offset sz : ℕ) (mp : MessagePool)
    → length m - offset ≡ sz
    → read_loop (m ∷ ms) offset sz mp
      ≡ some (record {
        bytes = take sz (drop offset m);
        messages = ms;
        offset = 0;
        pool = return_cell mp;
      })
unfolding read_loop
read_exact m ms offset sz mp h = ground arith

read_beyond :
    (m : List ℕ) (ms : List (List ℕ)) (offset sz : ℕ) (mp : MessagePool) (r : Rest)
    → ¬ (sz < length m - offset)
    → length m - offset ≢ sz
    → read_loop ms 0 (sz - (length m - offset)) (return_cell mp) ≡ some r
    → read_loop (m ∷ ms) offset sz mp
      ≡ some (record r { bytes = take (length m - offset) (drop offset m) ++ r.bytes })
unfolding read_loop
read_beyond m ms offset sz mp r p q e = ground arith

read_runs :
    (db : DataBuffer) (mp : MessagePool) (sz : ℕ) (r : Rest)
    → sz ≤ db.size
    → read_loop db.messages db.offset sz mp ≡ some r
    → read db mp sz
      ≡ some (
        r.bytes,
        record db { size = db.size - sz; offset = r.offset; messages = r.messages },
        r.pool,
      )
unfolding read
read_runs db mp sz r h e = ground arith

Reads-beyond :
    (m : List ℕ) (ms : List (List ℕ)) (offset sz : ℕ) (mp : MessagePool) (r : Rest)
    → offset ≤ length m
    → ¬ (sz < length m - offset)
    → length m - offset ≢ sz
    → Reads ms 0 (sz - (length m - offset)) (return_cell mp) r
    → Reads
        (m ∷ ms)
        offset
        sz
        mp
        (record r { bytes = take (length m - offset) (drop offset m) ++ r.bytes })
Reads-beyond m ms offset sz mp r f p q t =
    let whole : take (length m - offset) (drop offset m) ≡ drop offset m =
      subst (λ k. take k (drop offset m) ≡ drop offset m) (length-drop offset m)
        (take-length (drop offset m)) in
    let rest : sz - length (drop offset m) ≡ sz - (length m - offset) =
      ap (λ k. sz - k) (length-drop offset m) in
    let enough : length (drop offset m) ≤ sz = omega (arith, length-drop offset m) in
    record {
      returns = read_beyond m ms offset sz mp r p q t.returns;
      front =
          ap₂ ◌++◌ whole t.front
          ∙ sym (
              ap (take sz) (drop_first offset m ms f)
              ∙ take-append_ge sz (drop offset m) (concat ms) enough
              ∙ ap (λ k. drop offset m ++ take k (concat ms)) rest);
      leaves =
          t.leaves
          ∙ sym (
              ap (drop sz) (drop_first offset m ms f)
              ∙ drop-append_ge sz (drop offset m) (concat ms) enough
              ∙ ap (λ k. drop k (concat ms)) rest);
      in_first = t.in_first;
      cells = omega (arith, t.cells);
      blocks = t.blocks;
    }

read_loop_lem :
    (ms : List (List ℕ)) (offset sz : ℕ) (mp : MessagePool)
    → InFirst ms offset
    → 0 < sz
    → sz ≤ length (drop offset (concat ms))
    → (r : Rest) × Reads ms offset sz mp r
unfolding read_loop
read_loop_lem [] offset sz mp f pos h =
    absurd (omega (arith, ap length (drop-nil {0} {A = ℕ} offset)))
read_loop_lem (m ∷ ms) offset sz mp f pos h =
    let bsz = length m - offset in
    let S = drop_first offset m ms f in
    let len : length (drop offset m) ≡ length m - offset = length-drop offset m in
    elim (dec_lt sz bsz) [
      | yes p ↦ (
        _,
        record {
          returns = read_inside m ms offset sz mp p;
          front = rw S (sym (take-append_le sz (drop offset m) (concat ms) (omega arith)));
          leaves = sym (drop-drop sz offset (m ++ concat ms));
          in_first = omega arith;
          cells = refl;
          blocks = refl;
        },
      )
      | no p ↦ elim (ℕ_discrete bsz sz) [
        | yes q ↦ (
          _,
          record {
            returns = read_exact m ms offset sz mp q;
            front = rw S (sym (take-append_le sz (drop offset m) (concat ms) (omega arith)));
            leaves = rw S (
                sym (
                  drop-append_ge sz (drop offset m) (concat ms) (omega arith)
                  ∙ ap (λ k. drop k (concat ms))
                      (let z : sz - length (drop offset m) ≡ 0 = omega arith in z)));
            in_first = InFirst-zero ms;
            cells = omega arith;
            blocks = refl;
          },
        )
        | no q ↦
            let (r, t) =
              read_loop_lem ms 0 (sz - bsz) (return_cell mp) (InFirst-zero ms) (omega arith)
                (omega (arith, ap length S, length-append (drop offset m) (concat ms))) in
            (
              record r { bytes = take bsz (drop offset m) ++ r.bytes },
              Reads-beyond m ms offset sz mp r f p q t,
            )
      ]
    ]

-- `databuffer_read` of at least one byte and at most all succeeds: it hands out the front of the
-- stream and leaves the rest, and no cell of the pool is lost; `others` cells are in other chains.
pub read_lem :
    (others : ℕ) (db : DataBuffer) (mp : MessagePool) (sz : ℕ)
    → IsValid db
    → 0 < sz
    → sz ≤ db.size
    → Accounts mp (length db.messages + others)
    → (db' : DataBuffer) × (mp' : MessagePool) × (read db mp sz
        ≡ some (take sz (stream db), db', mp'))
      × (stream db' ≡ drop sz (stream db))
      × IsValid db'
      × Accounts mp' (length db'.messages + others)
      × (db'.header ≡ db.header)
unfolding stream
read_lem others db mp sz v pos le acc =
    let (r, t) =
      read_loop_lem db.messages db.offset sz mp v.offset_in pos (omega (arith, v.counted)) in
    (
      record db { size = db.size - sz; offset = r.offset; messages = r.messages },
      r.pool,
      read_runs db mp sz r le t.returns
          ∙ ap
              (λ b. some (
                b,
                record db { size = db.size - sz; offset = r.offset; messages = r.messages },
                r.pool,
              ))
              t.front,
      t.leaves,
      record {
        offset_in = t.in_first;
        counted = omega (arith, v.counted, ap length t.leaves, length-drop sz (stream db));
      },
      omega (arith, t.cells, ap (λ (b : ℕ). b * 1023) t.blocks),
      refl,
    )

-- A read of more than there is fails the assertion.
pub read_short : (db : DataBuffer) (mp : MessagePool) (sz : ℕ) → db.size < sz → read db mp sz ≡ none
unfolding read
read_short db mp sz h = ground arith
