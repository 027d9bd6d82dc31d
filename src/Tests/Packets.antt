-- ===== src/Tests/Packets.antt =====
-- The packet splitter on small inputs.
use game_server.Common.{ℕ, ◌≡◌, none, List, [], ◌∷◌, ◌++◌, arith}
use game_server.NetPack.{
  Netpack, header_only, PackQueue, get_queue, netpack, save_uncomplete, filter_data,
}
use game_server.NetPack.Ready.{IsRing, get_queue-IsRing}
use game_server.NetPack.Table.{
  pending, IsTable, save_uncomplete-IsTable, pending-get_queue, get_queue-IsTable,
}
use game_server.NetPack.Split.{kept_bytes, save-Outcome}
use game_server.NetPack.Fill.{Filtered}
use game_server.NetPack.Deliver.{filter_data_lem}
use game_server.NetPack.Messages.{data_message, Handled, lfilter_lem}

abbrev zeros : ℕ → Netpack
zeros i = netpack 0 0 []

-- socket 7 has sent the first byte of a header
abbrev begun : PackQueue
begun = save_uncomplete 7 (header_only 0) (get_queue zeros)

begun-pending : pending (get_queue zeros) 7 ≡ none
begun-pending = pending-get_queue zeros 7

begun-IsRing : IsRing begun
begun-IsRing =
    (save-Outcome 7 (header_only 0) (get_queue zeros) (get_queue-IsRing zeros)
      (get_queue-IsTable zeros) begun-pending (omega arith)).ring

begun-IsTable : IsTable begun
begun-IsTable =
    save_uncomplete-IsTable 7 (header_only 0) (get_queue-IsTable zeros) begun-pending (omega arith)

-- the rest of a packet of two bytes, a whole packet of one, and the first byte of a third
abbrev chunk : List ℕ
chunk = 2 ∷ 65 ∷ 66 ∷ 0 ∷ 1 ∷ 67 ∷ 0 ∷ []

filter_data_lem_example :
    Filtered 7 (kept_bytes (pending begun 7) ++ chunk) begun (filter_data 7 chunk begun)
filter_data_lem_example =
    filter_data_lem 7 chunk begun begun-IsRing begun-IsTable (omega arith) (omega arith)

abbrev two_bytes : Netpack
two_bytes = netpack 7 2 (65 ∷ 66 ∷ [])

lfilter_lem_example : Handled (data_message 7 chunk) begun
lfilter_lem_example =
    lfilter_lem (data_message 7 chunk) begun begun-IsRing begun-IsTable (omega arith)
