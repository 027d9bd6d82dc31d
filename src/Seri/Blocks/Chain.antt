-- ===== src/Seri/Blocks/Chain.antt =====
-- The chain of blocks holds the bytes that were pushed, in order, and `seri` copies them out.
use native.Mathlib.Decide.{ℕ_discrete, dec_le}
use game_server.Common.{
  ℕ, zero, suc, ◌+◌, ◌-◌, ◌%◌, ◌^◌, false, leb, ◌≤◌, ◌<◌, ◌≡◌, refl, sym, ap, ◌∙◌, true, some, List,
  [], ◌∷◌, ◌++◌, length, take, drop, ◌==◌, concat, concat-append, All, All-append, append-nil,
  append_assoc, length-append, length-take, length-drop, take-length, take-drop, arith,
}
use game_server.Seri.Blocks.{
  WriteBlock, block_size, wb_init, append, next_block, push_rounds, wb_push, copy_blocks, seri,
}

-- the bytes that were pushed
unfoldable pub written : WriteBlock → List ℕ
written b = concat b.blocks ++ b.current

-- Every block before the current one is full.
pub record IsChain (b : WriteBlock) : Type 0 where
  pub full : All (λ k. length k ≡ block_size) b.blocks
  pub fits : length b.current ≤ block_size
  pub counted : b.len ≡ length (written b) % 2 ^ 32

-- What a push has done.
pub record Pushed (buf : List ℕ) (b b' : WriteBlock) : Type 0 where
  pub chain : IsChain b'
  pub adds : written b' ≡ written b ++ buf

pub wb_init-IsChain : IsChain wb_init
unfolding wb_init written
wb_init-IsChain = record { full = tt; fits = omega arith; counted = refl }

append-Pushed :
    (buf : List ℕ) (b : WriteBlock)
    → IsChain b
    → length b.current + length buf ≤ block_size
    → Pushed buf b (append buf b)
unfolding written
append-Pushed buf b c h =
    let adds : concat b.blocks ++ (b.current ++ buf) ≡ (concat b.blocks ++ b.current) ++ buf =
      sym (append_assoc (concat b.blocks) b.current buf) in
    record {
      chain = record {
        full = c.full;
        fits = omega (arith, length-append b.current buf);
        counted =
            omega
              (arith, c.counted, ap length adds, length-append (concat b.blocks ++ b.current) buf);
      };
      adds = adds;
    }

next_block-Pushed :
    (b : WriteBlock) → IsChain b → length b.current ≡ block_size → Pushed [] b (next_block b)
unfolding written
next_block-Pushed b c h =
    let same : concat (b.blocks ++ (b.current ∷ [])) ++ [] ≡ concat b.blocks ++ b.current =
      append-nil (concat (b.blocks ++ (b.current ∷ []))) ∙ concat-append b.blocks b.current in
    record {
      chain = record {
        full = All-append (λ k. length k ≡ block_size) b.blocks (b.current ∷ []) c.full (h, tt);
        fits = omega arith;
        counted = c.counted ∙ ap (λ l. length l % 2 ^ 32) (sym same);
      };
      adds = same ∙ sym (append-nil (concat b.blocks ++ b.current));
    }

pub Pushed-Pushed :
    {xs ys zs : List ℕ} {a b c : WriteBlock}
    → Pushed xs a b
    → Pushed ys b c
    → xs ++ ys ≡ zs
    → Pushed zs a c
Pushed-Pushed {xs} {ys} {zs} {a} p q e = record {
  chain = q.chain;
  adds =
      q.adds
      ∙ ap (λ l. l ++ ys) p.adds
      ∙ append_assoc (written a) xs ys
      ∙ ap (λ l. written a ++ l) e;
}

push_rounds_fits :
    (fuel : ℕ) (buf : List ℕ) (b : WriteBlock)
    → length b.current + length buf ≤ block_size
    → push_rounds (suc fuel) buf b ≡ append buf b
unfolding push_rounds
push_rounds_fits fuel buf b h = ground arith

push_rounds_again :
    (fuel : ℕ) (buf : List ℕ) (b : WriteBlock)
    → block_size < length b.current + length buf
    → push_rounds (suc fuel) buf b
      ≡ push_rounds fuel
          (drop (block_size - length b.current) buf)
          (next_block (append (take (block_size - length b.current) buf) b))
unfolding push_rounds
push_rounds_again fuel buf b h = ground arith

-- With more rounds than bytes the loop of `wb_push` ends, and no byte is lost.
push_rounds_lem :
    (fuel : ℕ) (buf : List ℕ) (b : WriteBlock)
    → IsChain b
    → length b.current < block_size
    → length buf < fuel
    → Pushed buf b (push_rounds fuel buf b)
push_rounds_lem zero buf b c h f = absurd (omega arith)
push_rounds_lem (suc fuel) buf b c h f = elim (dec_le (length b.current + length buf) block_size) [
  | yes p ↦ rw (push_rounds_fits fuel buf b p) (append-Pushed buf b c p)
  | no p ↦
      let n : ℕ = block_size - length b.current in
      let l : length (take n buf) ≡ n = length-take n buf ∙ omega arith in
      let whole : length (b.current ++ take n buf) ≡ block_size =
        length-append b.current (take n buf) ∙ omega arith in
      let one : Pushed (take n buf) b (append (take n buf) b) =
        append-Pushed (take n buf) b c (omega arith) in
      let two : Pushed [] (append (take n buf) b) (next_block (append (take n buf) b)) =
        next_block-Pushed (append (take n buf) b) one.chain whole in
      let rest =
        push_rounds_lem fuel (drop n buf) (next_block (append (take n buf) b)) two.chain
          (omega arith) (omega (arith, length-drop n buf)) in
      rw (push_rounds_again fuel buf b (omega arith))
        (Pushed-Pushed one (Pushed-Pushed two rest refl) (take-drop n buf))
]

-- `wb_push` puts the bytes behind those in the chain, over as many blocks as it takes.
pub wb_push_lem : (buf : List ℕ) (b : WriteBlock) → IsChain b → Pushed buf b (wb_push buf b)
unfolding wb_push
wb_push_lem buf b c = elim (ℕ_discrete (length b.current) block_size) [
  | yes e ↦
      let t : (length b.current == block_size) ≡ true = ground arith in
      let next = next_block-Pushed b c e in
      rw t (
        Pushed-Pushed next
          (push_rounds_lem (suc (length buf)) buf (next_block b) next.chain (omega arith)
            (omega arith))
          refl)
  | no ne ↦
      let f : (length b.current == block_size) ≡ false = ground arith in
      let small : length b.current < block_size = omega (arith, c.fits) in
      rw f (push_rounds_lem (suc (length buf)) buf b c small (omega arith))
]

copy_blocks_full :
    (b : List ℕ) (bs : List (List ℕ)) (n m : ℕ) (r : List ℕ)
    → length b ≡ block_size
    → n ≡ block_size + m
    → copy_blocks bs m ≡ some r
    → copy_blocks (b ∷ bs) n ≡ some (b ++ r)
unfolding copy_blocks
copy_blocks_full b bs n m r h e t =
    let d : n - block_size ≡ m = omega arith in
    let t' : copy_blocks bs (n - block_size) ≡ some r = ap (copy_blocks bs) d ∙ t in ground arith

copy_blocks_part :
    (b : List ℕ) (bs : List (List ℕ))
    → 0 < length b
    → length b < block_size
    → copy_blocks (b ∷ bs) (length b) ≡ some b
unfolding copy_blocks
copy_blocks_part b bs pos lt = ground (arith, take-length b)

copy_blocks_last :
    (last : List ℕ) → length last ≤ block_size → copy_blocks (last ∷ []) (length last) ≡ some last
copy_blocks_last [] le = unfold copy_blocks in refl
copy_blocks_last (x ∷ last) le = elim (ℕ_discrete (length (x ∷ last)) block_size) [
  | yes e ↦
      let z : copy_blocks [] 0 ≡ some [] = unfold copy_blocks in refl in
      copy_blocks_full (x ∷ last) [] (length (x ∷ last)) 0 [] e (omega arith) z
      ∙ ap some (append-nil (x ∷ last))
  | no ne ↦ copy_blocks_part (x ∷ last) [] (omega arith) (omega arith)
]

-- The loop of `seri` copies all full blocks and the part of the last one that was written.
copy_blocks-blocks :
    (bs : List (List ℕ)) (last : List ℕ)
    → All (λ k. length k ≡ block_size) bs
    → length last ≤ block_size
    → copy_blocks (bs ++ (last ∷ [])) (length (concat bs ++ last)) ≡ some (concat bs ++ last)
copy_blocks-blocks [] last h le = copy_blocks_last last le
copy_blocks-blocks (b ∷ bs) last h le =
    let e : length ((b ++ concat bs) ++ last) ≡ block_size + length (concat bs ++ last) =
      ap length (append_assoc b (concat bs) last)
      ∙ length-append b (concat bs ++ last)
      ∙ omega (arith, h.0) in
    copy_blocks_full b (bs ++ (last ∷ [])) (length ((b ++ concat bs) ++ last))
      (length (concat bs ++ last)) (concat bs ++ last) h.0 e (copy_blocks-blocks bs last h.1 le)
    ∙ ap some (sym (append_assoc b (concat bs) last))

-- `seri` copies out what was pushed, if that is less than 2^31 bytes.
pub seri-written :
    (b : WriteBlock)
    → IsChain b
    → length (written b) < 2 ^ 31
    → seri (b.blocks ++ (b.current ∷ [])) b.len ≡ some (written b)
unfolding seri written
seri-written b c lt =
    let len : b.len ≡ length (written b) = omega (arith, c.counted) in
    let small : leb (2 ^ 31) (length (written b)) ≡ false = ground arith in
    rw (len, seri, small) (copy_blocks-blocks b.blocks b.current c.full c.fits)
