-- ===== src/NetPack/Deliver.antt =====
-- `filter_data_` as a whole: what a chunk of a socket's bytes turns into.
use game_server.Common.{ℕ, ◌<◌, ◌≡◌, refl, ◌∙◌, Option, none, some, List, ◌++◌, length, arith}
use game_server.NetPack.{
  Progress, PackQueue, Answer, filter_found, filter_new, filter_data, close_uncomplete,
}
use game_server.NetPack.Ready.{ready, IsRing}
use game_server.NetPack.Table.{pending, IsTable, close_uncomplete-IsTable, pending-close_uncomplete}
use game_server.NetPack.Split.{kept_bytes, Bytes}
use game_server.NetPack.Fill.{Filtered, refiltered}
use game_server.NetPack.Chunk.{filter_new_lem, filter_found_lem}

-- An outcome for the table without the socket's entry is one for the table itself.
reopened :
    (fd : ℕ) (before : List ℕ) {q : PackQueue} {r : Option (Answer × PackQueue)}
    → IsTable q
    → Filtered fd before (close_uncomplete fd q) r
    → Filtered fd before q r
unfolding ready close_uncomplete
reopened fd before {q} t f = record {
  answer = f.answer;
  after = f.after;
  direct = f.direct;
  returns = f.returns;
  answered = f.answered;
  outcome = record {
    packs = f.outcome.packs;
    ring = f.outcome.ring;
    table = f.outcome.table;
    queued = f.outcome.queued;
    bytes = f.outcome.bytes;
    packable = f.outcome.packable;
    others = λ fd' ne. f.outcome.others fd' ne ∙ ground (arith, pending-close_uncomplete fd fd' t);
  };
}

filter_data_by :
    (fd : ℕ) (buffer : List ℕ) (q : PackQueue) (o : Option Progress)
    → pending q fd ≡ o
    → filter_data fd buffer q ≡ (elim o [
      | none ↦ filter_new fd buffer q
      | some p ↦ filter_found fd p buffer (close_uncomplete fd q)
    ])
unfolding filter_data close_uncomplete
filter_data_by fd buffer q o e = rw (filter_data, e) refl

filter_data_cases :
    (fd : ℕ) (buffer : List ℕ) (q : PackQueue) (o : Option Progress)
    → pending q fd ≡ o
    → IsRing q
    → IsTable q
    → Bytes buffer
    → 0 < length buffer
    → Filtered fd (kept_bytes o ++ buffer) q (filter_data fd buffer q)
unfolding close_uncomplete
filter_data_cases fd buffer q none e v t bs pos =
    refiltered (filter_data_by fd buffer q none e) (filter_new_lem fd buffer q v t e bs pos)
filter_data_cases fd buffer q (some p) e v t bs pos =
    let gone : pending (close_uncomplete fd q) fd ≡ none =
      ground (arith, pending-close_uncomplete fd fd t) in
    let ring : IsRing (close_uncomplete fd q) = record {
      head_in = v.head_in;
      tail_in = v.tail_in;
    } in
    refiltered (filter_data_by fd buffer q (some p) e) (
      reopened fd (kept_bytes (some p) ++ buffer) t (
        filter_found_lem fd p buffer (close_uncomplete fd q) ring (close_uncomplete-IsTable fd t)
          gone (t.partial fd p e) bs pos))

-- For a non-empty chunk of bytes of a socket, on a queue whose ring and table are valid,
-- `filter_data_` ends. What was kept for the socket, with the chunk behind it, is the
-- concatenation of the packets that are queued behind those that wait and of the packet that is
-- handed out at once, each as `lpack` packs it, followed by what is then kept, which is a part of one
-- packet. Ring and table stay valid, and all other sockets keep what they had.
pub filter_data_lem :
    (fd : ℕ) (buffer : List ℕ) (q : PackQueue)
    → IsRing q
    → IsTable q
    → Bytes buffer
    → 0 < length buffer
    → Filtered fd (kept_bytes (pending q fd) ++ buffer) q (filter_data fd buffer q)
filter_data_lem fd buffer q v t bs pos =
    filter_data_cases fd buffer q (pending q fd) refl v t bs pos
