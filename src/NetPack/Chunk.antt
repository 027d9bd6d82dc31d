-- ===== src/NetPack/Chunk.antt =====
-- The two branches of `filter_data_`: an entry is found for the socket, or none.
use mathlib.Core.Path.{subst}
use game_server.Common.{ℕ, ◌<◌, ◌≡◌, refl, none, some, List, [], ◌∷◌, ◌++◌, length, arith}
use game_server.NetPack.{
  Progress, header_only, filling, PackQueue, save_uncomplete, read_size, wait, fill, filter_found,
  filter_new,
}
use game_server.NetPack.Ready.{IsRing}
use game_server.NetPack.Table.{pending, Partial, IsTable}
use game_server.NetPack.Split.{kept_bytes, Bytes, write_size-read_size, save-Outcome}
use game_server.NetPack.Fill.{Filtered, refiltered, fill_lem}

filter_new_long :
    (fd a b : ℕ) (buffer : List ℕ) (q : PackQueue)
    → filter_new fd (a ∷ b ∷ buffer) q ≡ fill fd (read_size a b) [] buffer q
unfolding filter_new fill
filter_new_long fd a b buffer q = ground arith

-- `filter_data_` on a header's two bytes and what follows them.
header_Filtered :
    (fd a b : ℕ) (buffer : List ℕ) (q : PackQueue)
    → IsRing q
    → IsTable q
    → pending q fd ≡ none
    → Bytes (a ∷ b ∷ buffer)
    → Filtered fd (a ∷ b ∷ buffer) q (fill fd (read_size a b) [] buffer q)
header_Filtered fd a b buffer q v t e bs =
    subst (λ l. Filtered fd (l ++ buffer) q (fill fd (read_size a b) [] buffer q))
      (write_size-read_size a b bs.0 bs.1.0)
      (fill_lem fd (read_size a b) [] buffer q v t e (ground arith) (omega arith) bs.1.1)

pub filter_new_lem :
    (fd : ℕ) (buffer : List ℕ) (q : PackQueue)
    → IsRing q
    → IsTable q
    → pending q fd ≡ none
    → Bytes buffer
    → 0 < length buffer
    → Filtered fd buffer q (filter_new fd buffer q)
unfolding filter_new
filter_new_lem fd [] q v t e bs h = absurd (omega arith)
filter_new_lem fd (b ∷ []) q v t e bs h = record {
  answer = wait;
  after = save_uncomplete fd (header_only b) q;
  direct = [];
  returns = refl;
  answered = refl;
  outcome = save-Outcome fd (header_only b) q v t e bs.0;
}
filter_new_lem fd (a ∷ b ∷ buffer) q v t e bs h =
    refiltered (filter_new_long fd a b buffer q) (header_Filtered fd a b buffer q v t e bs)

pub filter_found_lem :
    (fd : ℕ) (p : Progress) (buffer : List ℕ) (q : PackQueue)
    → IsRing q
    → IsTable q
    → pending q fd ≡ none
    → Partial p
    → Bytes buffer
    → 0 < length buffer
    → Filtered fd (kept_bytes (some p) ++ buffer) q (filter_found fd p buffer q)
unfolding filter_found
filter_found_lem fd (header_only h) [] q v t e k bs pos = absurd (omega arith)
filter_found_lem fd (header_only h) (b ∷ buffer) q v t e k bs pos =
    header_Filtered fd h b buffer q v t e (k, bs)
filter_found_lem fd (filling n got) buffer q v t e k bs pos =
    fill_lem fd n got buffer q v t e k.0 (omega arith) bs
