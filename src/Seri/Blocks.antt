-- ===== src/Seri/Blocks.antt =====
-- The chain of blocks of 128 bytes that the packer writes to.
pub mod Chain
use game_server.Common.{
  ℕ, zero, suc, ◌+◌, ◌-◌, ◌%◌, ◌^◌, Option, none, some, List, [], ◌∷◌, ◌++◌, length, take, drop,
  ltb, leb, ◌==◌, if◌then◌else◌,
}

abbrev pub block_size : ℕ
block_size = 128

-- `struct write_block`: the blocks before `current`, what `current` holds (`ptr` is its length), and
-- `len`, an `int` by its 32-bit pattern.
pub record WriteBlock : Type 0 where
  pub blocks : List (List ℕ)
  pub current : List ℕ
  pub len : ℕ

-- `wb_init`
unfoldable pub wb_init : WriteBlock
wb_init = record { blocks = []; current = []; len = 0 }

-- the copy of bytes behind `ptr`
abbrev pub append : List ℕ → WriteBlock → WriteBlock
append buf b = record b { current = b.current ++ buf; len = (b.len + length buf) % 2 ^ 32 }

-- `b->current = b->current->next = blk_alloc(); b->ptr = 0;`
abbrev pub next_block : WriteBlock → WriteBlock
next_block b = record b { blocks = b.blocks ++ (b.current ∷ []); current = [] }

-- `wb_push` behind its first test, with a round of fuel for each block.
pub push_rounds : ℕ → List ℕ → WriteBlock → WriteBlock
push_rounds zero buf b = b
push_rounds (suc fuel) buf b =
    let copy = block_size - length b.current in
    let again = push_rounds fuel (drop copy buf) (next_block (append (take copy buf) b)) in
    if leb (length b.current + length buf) block_size then append buf b else again

-- `wb_push`
pub wb_push : List ℕ → WriteBlock → WriteBlock
wb_push buf b =
    push_rounds (suc (length buf)) buf (if length b.current == block_size then next_block b else b)

-- The loop of `seri` over the chain; `none` is a block that is not there, or bytes of it that were
-- not written.
pub copy_blocks : List (List ℕ) → ℕ → Option (List ℕ)
copy_blocks [] len = if len == 0 then some [] else none
copy_blocks (b ∷ bs) len =
    let rest = copy_blocks bs (len - block_size) in
    if len == 0
    then some []
    else if leb block_size len
    then (if length b == block_size
        then elim rest [ none ↦ none | some r ↦ some (b ++ r) ]
        else none)
    else if leb len (length b)
    then some (take len b)
    else none

-- `seri`; `none` is also a negative `len`, for which `skynet_malloc` is asked for almost 2^64 bytes.
pub seri : List (List ℕ) → ℕ → Option (List ℕ)
seri bs len = if leb (2 ^ 31) len then none else copy_blocks bs len
