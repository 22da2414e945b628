-- ===== src/Arena/Blocks.antt =====
-- arena.c: the lists of page blocks. `prev_block` is never read, and left out: a list is the chain of
-- `next_block`. Addresses are numbers. The structs that `recycle_block_struct` collects are left out.
use dp4c.Prelude.{ℕ, ◌-◌, List, [], ◌∷◌, leb, ◌==◌, Option, none, some, if◌then◌else◌}

pub record PageBlock : Type 0 where
  pub memory_begin : ℕ
  pub memory_end : ℕ

unfoldable pub find_block_first_fit : ℕ → List PageBlock → Option PageBlock
find_block_first_fit amount [] = none
find_block_first_fit amount (b ∷ blocks) =
    if leb amount (b.memory_end - b.memory_begin)
    then some b
    else find_block_first_fit amount blocks

-- The coalescing of a new block with the block behind it.
unfoldable pub coalesce_right : PageBlock → List PageBlock → List PageBlock
coalesce_right new [] = new ∷ []
coalesce_right new (right ∷ rest) =
    if right.memory_begin == new.memory_end
    then record right { memory_begin = new.memory_begin } ∷ rest
    else new ∷ right ∷ rest

-- The coalescing of a new block with the blocks before and behind it.
unfoldable pub coalesce : PageBlock → PageBlock → List PageBlock → List PageBlock
coalesce left new [] =
    if left.memory_end == new.memory_begin
    then record left { memory_end = new.memory_end } ∷ []
    else left ∷ new ∷ []
coalesce left new (right ∷ rest) =
    if left.memory_end == new.memory_begin
    then (if right.memory_begin == new.memory_end
        then record left { memory_end = right.memory_end } ∷ rest
        else record left { memory_end = new.memory_end } ∷ right ∷ rest)
    else left ∷ coalesce_right new (right ∷ rest)

abbrev pub behind : PageBlock → Option (List PageBlock) → Option (List PageBlock)
behind p none = none
behind p (some blocks) = some (p ∷ blocks)

-- The loop that takes the first block that does not begin behind the new one for its left neighbour;
-- `none` where there is no such block.
unfoldable pub insert_behind : PageBlock → List PageBlock → Option (List PageBlock)
insert_behind new [] = none
insert_behind new (p ∷ blocks) =
    let rest = insert_behind new blocks in
    if leb p.memory_begin new.memory_begin then some (coalesce p new blocks) else behind p rest

abbrev pub or_in_front : Option (List PageBlock) → List PageBlock → List PageBlock
or_in_front none front = front
or_in_front (some merged) front = merged

-- `next` is what `next_block` of the new block points to, which is kept only where the list is empty.
unfoldable pub block_insert_and_coalesce :
    List PageBlock → PageBlock → List PageBlock → List PageBlock
block_insert_and_coalesce [] new next = new ∷ next
block_insert_and_coalesce (p ∷ blocks) new next =
    or_in_front (insert_behind new (p ∷ blocks)) (coalesce_right new (p ∷ blocks))
