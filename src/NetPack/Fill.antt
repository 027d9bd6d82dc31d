-- ===== src/NetPack/Fill.antt =====
-- `fill`: a chunk of a socket's bytes completes a packet of a known size, or does not.
use mathlib.Core.Path.{subst}
use native.Mathlib.Decide.{ℕ_discrete, dec_lt}
use game_server.Common.{
  take-drop, All-drop, ℕ, suc, ◌+◌, ◌-◌, ◌^◌, ◌≤◌, ◌<◌, ◌≡◌, refl, sym, ap, ◌∙◌, Option, none, some,
  List, [], ◌∷◌, ◌++◌, map, append-nil, append_assoc, length, take, drop, length-append,
  length-take, length-drop, drop-length, arith,
}
use game_server.NetPack.{
  Netpack, filling, PackQueue, push_data, save_uncomplete, netpack, push_more, write_size, Answer,
  wait, packet, more, queue_all, fill,
}
use game_server.NetPack.Ready.{ready, IsRing, push_data-IsRing}
use game_server.NetPack.Table.{pending, IsTable}
use game_server.NetPack.Split.{
  frame, kept_bytes, pack_of, Bytes, Outcome, lpack-frame, save-Outcome, push_data-IsTable,
  pending-push_data, push-Outcome,
}
use game_server.NetPack.Filter.{push_more_lem}

-- the packets that the caller gets with the answer
abbrev pub answer_packs : Answer → List Netpack
answer_packs wait = []
answer_packs (packet np) = np ∷ []
answer_packs more = []

-- A run of `filter_data_` that ends well.
pub record Filtered (fd : ℕ) (before : List ℕ) (q : PackQueue) (r : Option (Answer × PackQueue))
    : Type 0 where
  pub answer : Answer
  pub after : PackQueue
  pub direct : List (List ℕ)
  pub returns : r ≡ some (answer, after)
  pub answered : answer_packs answer ≡ map (pack_of fd) direct
  pub outcome : Outcome fd before q after direct

direct-Outcome :
    (fd : ℕ) (p : List ℕ) (q : PackQueue)
    → IsRing q
    → IsTable q
    → pending q fd ≡ none
    → length p < 2 ^ 16
    → Outcome fd (frame p) q q (p ∷ [])
direct-Outcome fd p q v t e h = record {
  packs = [];
  ring = v;
  table = t;
  queued = sym (append-nil (ready q));
  bytes = sym (
      ap (λ k. (frame p ++ []) ++ kept_bytes k) e
      ∙ append-nil (frame p ++ [])
      ∙ append-nil (frame p));
  packable = (lpack-frame p h, tt);
  others = λ fd' ne. refl;
}

length-whole :
    (n : ℕ) (got buffer : List ℕ)
    → length got ≤ n
    → n ≤ length got + length buffer
    → length (got ++ take (n - length got) buffer) ≡ n
length-whole n got buffer le h =
    length-append got (take (n - length got) buffer)
    ∙ omega (arith, length-take (n - length got) buffer)

-- The packet that `fill` completes, and what comes after it, are the bytes that there were.
whole_frame :
    (n : ℕ) (got buffer : List ℕ)
    → length got ≤ n
    → n ≤ length got + length buffer
    → frame (got ++ take (n - length got) buffer) ++ drop (n - length got) buffer
      ≡ write_size n ++ (got ++ buffer)
whole_frame n got buffer le h =
    let need : ℕ = n - length got in
    let all : List ℕ = (got ++ take need buffer) ++ drop need buffer in
    ap (λ k. write_size k ++ all) (length-whole n got buffer le h)
    ∙ ap (λ l. write_size n ++ l)
        (append_assoc got (take need buffer) (drop need buffer)
          ∙ ap (λ l. got ++ l) (take-drop need buffer))

fill_short :
    (fd n : ℕ) (got buffer : List ℕ) (q : PackQueue)
    → length buffer < n - length got
    → fill fd n got buffer q ≡ some (wait, save_uncomplete fd (filling n (got ++ buffer)) q)
unfolding fill
fill_short fd n got buffer q h = ground arith

fill_exact :
    (fd n : ℕ) (got buffer : List ℕ) (q : PackQueue)
    → length buffer ≡ n - length got
    → fill fd n got buffer q ≡ some (packet (netpack fd n (got ++ take (n - length got) buffer)), q)
unfolding fill
fill_exact fd n got buffer q h = ground arith

fill_long :
    (fd n : ℕ) (got buffer : List ℕ) (q : PackQueue)
    → n - length got < length buffer
    → fill fd n got buffer q
      ≡ queue_all fd
          (netpack fd n (got ++ take (n - length got) buffer))
          (drop (n - length got) buffer)
          q
unfolding fill
fill_long fd n got buffer q h = ground arith

queue_all_runs :
    (fd : ℕ) (np : Netpack) (buffer : List ℕ) (q q' : PackQueue)
    → push_more (suc (length buffer)) fd buffer (push_data np q) ≡ some q'
    → queue_all fd np buffer q ≡ some (more, q')
unfolding queue_all
queue_all_runs fd np buffer q q' e = rw (queue_all, e) refl

-- The end with "more data": the first packet is queued, and `push_more` cuts up the rest.
queue_all-Filtered :
    (fd : ℕ) (p buffer before : List ℕ) (q : PackQueue) (np : Netpack)
    → IsRing q
    → IsTable q
    → pending q fd ≡ none
    → length p < 2 ^ 16
    → Bytes buffer
    → 0 < length buffer
    → np ≡ pack_of fd p
    → frame p ++ buffer ≡ before
    → Filtered fd before q (queue_all fd np buffer q)
queue_all-Filtered fd p buffer before q np v t e h bs pos same whole =
    let r =
      push_more_lem (suc (length buffer)) fd buffer (push_data (pack_of fd p) q)
        (push_data-IsRing (pack_of fd p) v) (push_data-IsTable (pack_of fd p) t)
        (pending-push_data (pack_of fd p) q fd ∙ e) bs pos (omega arith) in
    record {
      answer = more;
      after = r.after;
      direct = [];
      returns =
          ap (λ k. queue_all fd k buffer q) same
          ∙ queue_all_runs fd (pack_of fd p) buffer q r.after r.returns;
      answered = refl;
      outcome =
          subst (λ l. Outcome fd l q r.after []) whole (push-Outcome fd p buffer v h r.outcome);
    }

pub refiltered :
    {fd : ℕ} {before : List ℕ} {q : PackQueue} {r r' : Option (Answer × PackQueue)}
    → r ≡ r'
    → Filtered fd before q r'
    → Filtered fd before q r
refiltered e f = record {
  answer = f.answer;
  after = f.after;
  direct = f.direct;
  returns = e ∙ f.returns;
  answered = f.answered;
  outcome = f.outcome;
}

nothing_after :
    (fd n : ℕ) (got buffer p : List ℕ) {all : List ℕ}
    → length buffer ≡ n - length got
    → frame p ++ drop (n - length got) buffer ≡ all
    → frame p ≡ all
nothing_after fd n got buffer p eq e =
    let gone : drop (n - length got) buffer ≡ [] =
      ap (λ k. drop k buffer) (sym eq) ∙ drop-length buffer in
    sym (append-nil (frame p)) ∙ ap (λ l. frame p ++ l) (sym gone) ∙ e

-- `fill` on a packet of `n` bytes of which `got` is there.
pub fill_lem :
    (fd n : ℕ) (got buffer : List ℕ) (q : PackQueue)
    → IsRing q
    → IsTable q
    → pending q fd ≡ none
    → n < 2 ^ 16
    → length got ≤ n
    → Bytes buffer
    → Filtered fd (write_size n ++ (got ++ buffer)) q (fill fd n got buffer q)
fill_lem fd n got buffer q v t e hn le bs =
    let p : List ℕ = got ++ take (n - length got) buffer in
    elim (dec_lt (length buffer) (n - length got)) [
      | yes lt ↦ record {
        answer = wait;
        after = save_uncomplete fd (filling n (got ++ buffer)) q;
        direct = [];
        returns = fill_short fd n got buffer q lt;
        answered = refl;
        outcome =
            save-Outcome fd (filling n (got ++ buffer)) q v t e
              (hn, omega (arith, length-append got buffer));
      }
      | no ge ↦
          let len : length p ≡ n = length-whole n got buffer le (omega arith) in
          let same : netpack fd n p ≡ pack_of fd p = ap (λ k. netpack fd k p) (sym len) in
          let whole = whole_frame n got buffer le (omega arith) in
          elim (ℕ_discrete (length buffer) (n - length got)) [
            | yes eq ↦ record {
              answer = packet (pack_of fd p);
              after = q;
              direct = p ∷ [];
              returns = fill_exact fd n got buffer q eq ∙ ap (λ k. some (packet k, q)) same;
              answered = refl;
              outcome =
                  subst (λ l. Outcome fd l q q (p ∷ [])) (nothing_after fd n got buffer p eq whole)
                    (direct-Outcome fd p q v t e (omega arith));
            }
            | no ne ↦ refiltered (fill_long fd n got buffer q (omega arith)) (
                queue_all-Filtered fd p (drop (n - length got) buffer)
                  (write_size n ++ (got ++ buffer)) q (netpack fd n p) v t e (omega arith)
                  (All-drop (λ b. b < 2 ^ 8) (n - length got) buffer bs)
                  (omega (arith, length-drop (n - length got) buffer)) same whole)
          ]
    ]
