-- ===== src/NetPack/Filter.antt =====
-- `push_more` and `filter_data_`: every chunk of bytes is cut up as the stream asks for.
use native.Mathlib.Decide.{ℕ_discrete, dec_lt}
use mathlib.Core.Path.{subst}
use game_server.Common.{
  take-drop, All-drop, ℕ, zero, suc, ◌^◌, ◌≤◌, ◌<◌, ◌≡◌, refl, sym, ap, ◌∙◌, Option, none, some,
  List, [], ◌∷◌, ◌++◌, length, take, drop, length-take, length-drop, drop-length, arith,
}
use game_server.NetPack.{
  header_only, filling, PackQueue, push_data, save_uncomplete, netpack, read_size, push_more,
  write_size,
}
use game_server.NetPack.Ready.{IsRing, push_data-IsRing}
use game_server.NetPack.Table.{pending, IsTable}
use game_server.NetPack.Split.{
  frame, pack_of, Bytes, Outcome, write_size-read_size, none-Outcome, save-Outcome,
  push_data-IsTable, pending-push_data, push-Outcome,
}

-- A run of `push_more` that ends well.
pub record Pushed (fd : ℕ) (before : List ℕ) (q : PackQueue) (r : Option PackQueue) : Type 0 where
  pub after : PackQueue
  pub returns : r ≡ some after
  pub outcome : Outcome fd before q after []

-- A header and its packet at the front of a buffer are the packet's frame.
front_frame :
    (a b : ℕ) (buffer : List ℕ)
    → a < 2 ^ 8
    → b < 2 ^ 8
    → read_size a b ≤ length buffer
    → frame (take (read_size a b) buffer) ++ drop (read_size a b) buffer ≡ a ∷ b ∷ buffer
front_frame a b buffer ha hb le =
    let n : length (take (read_size a b) buffer) ≡ read_size a b =
      length-take (read_size a b) buffer ∙ omega arith in
    let both : List ℕ = take (read_size a b) buffer ++ drop (read_size a b) buffer in
    ap (λ k. write_size k ++ both) n
    ∙ ap (λ l. l ++ both) (write_size-read_size a b ha hb)
    ∙ ap (λ l. a ∷ b ∷ l) (take-drop (read_size a b) buffer)

push_more_short :
    (fuel fd a b : ℕ) (buffer : List ℕ) (q : PackQueue)
    → length buffer < read_size a b
    → push_more (suc fuel) fd (a ∷ b ∷ buffer) q
      ≡ some (save_uncomplete fd (filling (read_size a b) buffer) q)
unfolding push_more
push_more_short fuel fd a b buffer q h = ground arith

push_more_exact :
    (fuel fd a b : ℕ) (buffer : List ℕ) (q : PackQueue)
    → length buffer ≡ read_size a b
    → push_more (suc fuel) fd (a ∷ b ∷ buffer) q
      ≡ some (push_data (netpack fd (read_size a b) (take (read_size a b) buffer)) q)
unfolding push_more
push_more_exact fuel fd a b buffer q h = ground arith

push_more_long :
    (fuel fd a b : ℕ) (buffer : List ℕ) (q : PackQueue)
    → read_size a b < length buffer
    → push_more (suc fuel) fd (a ∷ b ∷ buffer) q
      ≡ push_more fuel fd
          (drop (read_size a b) buffer)
          (push_data (netpack fd (read_size a b) (take (read_size a b) buffer)) q)
unfolding push_more
push_more_long fuel fd a b buffer q h = ground arith

-- One packet in front of a buffer goes to the ring; what is done then is done for the rest.
Pushed-front :
    (fd a b : ℕ) (buffer : List ℕ) {q : PackQueue} {r : Option PackQueue}
    → IsRing q
    → a < 2 ^ 8
    → b < 2 ^ 8
    → read_size a b ≤ length buffer
    → Pushed fd
        (drop (read_size a b) buffer)
        (push_data (pack_of fd (take (read_size a b) buffer)) q)
        r
    → Pushed fd (a ∷ b ∷ buffer) q r
Pushed-front fd a b buffer {q} v ha hb le p =
    let n : length (take (read_size a b) buffer) ≡ read_size a b =
      length-take (read_size a b) buffer ∙ omega arith in
    record {
      after = p.after;
      returns = p.returns;
      outcome =
          subst (λ l. Outcome fd l q p.after []) (front_frame a b buffer ha hb le)
            (push-Outcome fd (take (read_size a b) buffer) (drop (read_size a b) buffer) v
              (omega arith) p.outcome);
    }

-- the packet that the code builds, its size read from the header
netpack-pack_of :
    (fd n : ℕ) (buffer : List ℕ)
    → n ≤ length buffer
    → netpack fd n (take n buffer) ≡ pack_of fd (take n buffer)
netpack-pack_of fd n buffer h =
    let e : n ≡ length (take n buffer) = sym (length-take n buffer ∙ omega arith) in
    ap (λ k. netpack fd k (take n buffer)) e

returned :
    {fd : ℕ} {before : List ℕ} {q : PackQueue} {r r' : Option PackQueue}
    → r ≡ r'
    → Pushed fd before q r'
    → Pushed fd before q r
returned e p = record { after = p.after; returns = e ∙ p.returns; outcome = p.outcome }

-- A part of a packet behind a whole header is kept.
pub kept-Outcome :
    (fd a b : ℕ) (buffer : List ℕ) (q : PackQueue)
    → IsRing q
    → IsTable q
    → pending q fd ≡ none
    → a < 2 ^ 8
    → b < 2 ^ 8
    → length buffer < read_size a b
    → Outcome fd (a ∷ b ∷ buffer) q (save_uncomplete fd (filling (read_size a b) buffer) q) []
kept-Outcome fd a b buffer q v t e ha hb lt =
    subst
      (λ l. Outcome fd (l ++ buffer) q (save_uncomplete fd (filling (read_size a b) buffer) q) [])
      (write_size-read_size a b ha hb)
      (save-Outcome fd (filling (read_size a b) buffer) q v t e (omega arith, lt))

drop_all : (n : ℕ) (xs : List ℕ) → length xs ≡ n → drop n xs ≡ []
drop_all n xs e = ap (λ k. drop k xs) (sym e) ∙ drop-length xs

-- With the length for fuel `push_more` ends: the buffer is packets that were queued and a part.
pub push_more_lem :
    (fuel fd : ℕ) (buffer : List ℕ) (q : PackQueue)
    → IsRing q
    → IsTable q
    → pending q fd ≡ none
    → Bytes buffer
    → 0 < length buffer
    → length buffer < fuel
    → Pushed fd buffer q (push_more fuel fd buffer q)
unfolding push_more
push_more_lem zero fd buffer q v t e bs h f = absurd (omega arith)
push_more_lem (suc fuel) fd [] q v t e bs h f = absurd (omega arith)
push_more_lem (suc fuel) fd (b ∷ []) q v t e bs h f = record {
  after = save_uncomplete fd (header_only b) q;
  returns = refl;
  outcome = save-Outcome fd (header_only b) q v t e bs.0;
}
push_more_lem (suc fuel) fd (a ∷ b ∷ buffer) q v t e bs h f =
    let n : ℕ = read_size a b in
    let first = pack_of fd (take n buffer) in
    elim (dec_lt (length buffer) (read_size a b)) [
      | yes lt ↦ record {
        after = save_uncomplete fd (filling n buffer) q;
        returns = push_more_short fuel fd a b buffer q lt;
        outcome = kept-Outcome fd a b buffer q v t e bs.0 bs.1.0 lt;
      }
      | no ge ↦
          let same : netpack fd n (take n buffer) ≡ first =
            netpack-pack_of fd n buffer (omega arith) in
          let t' : IsTable (push_data first q) = push_data-IsTable first t in
          let v' : IsRing (push_data first q) = push_data-IsRing first v in
          let e' : pending (push_data first q) fd ≡ none = pending-push_data first q fd ∙ e in
          Pushed-front fd a b buffer v bs.0 bs.1.0 (omega arith)
            (elim (ℕ_discrete (length buffer) (read_size a b)) [
              | yes eq ↦ record {
                after = push_data first q;
                returns =
                    push_more_exact fuel fd a b buffer q eq ∙ ap (λ k. some (push_data k q)) same;
                outcome =
                    subst (λ l. Outcome fd l (push_data first q) (push_data first q) [])
                      (sym (drop_all n buffer eq)) (none-Outcome fd (push_data first q) v' t' e');
              }
              | no ne ↦
                  returned
                    (push_more_long fuel fd a b buffer q (omega arith)
                      ∙ ap (λ k. push_more fuel fd (drop n buffer) (push_data k q)) same)
                    (push_more_lem fuel fd (drop n buffer) (push_data first q) v' t' e'
                      (All-drop (λ b. b < 2 ^ 8) n buffer bs.1.1)
                      (omega (arith, length-drop n buffer)) (omega (arith, length-drop n buffer)))
            ])
    ]
