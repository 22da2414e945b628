-- ===== src/Tests/Blocks.antt =====
-- The theorem on lists of page blocks at a small list, and one whose order is lost.
use dp4c.Prelude.{ℕ, ◌+◌, List, [], ◌∷◌, ◌≡◌, refl, arith}
use dp4c.Arena.Blocks.{
  PageBlock, coalesce_right, coalesce, insert_behind, block_insert_and_coalesce,
}
use dp4c.Arena.Amounts.{size, total, AreBlocks, block_insert_and_coalesce-total}

abbrev block : ℕ → ℕ → PageBlock
block first last = record { memory_begin = first; memory_end = last }

abbrev two_blocks : List PageBlock
two_blocks = block 0 1 ∷ block 4 5 ∷ []

-- The new block stands before one that begins before it.
order_lost :
    block_insert_and_coalesce two_blocks (block 8 9) [] ≡ block 0 1 ∷ block 8 9 ∷ block 4 5 ∷ []
unfolding coalesce_right coalesce insert_behind block_insert_and_coalesce
order_lost = refl

-- All three blocks become one.
one_left : block_insert_and_coalesce two_blocks (block 1 4) [] ≡ block 0 5 ∷ []
unfolding coalesce_right coalesce insert_behind block_insert_and_coalesce
one_left = refl

two_blocks-AreBlocks : AreBlocks two_blocks
unfolding AreBlocks
two_blocks-AreBlocks = (omega arith, (omega arith, tt))

block_insert_and_coalesce-total_example :
    (total (block_insert_and_coalesce two_blocks (block 1 4) [])
      ≡ total two_blocks + size (block 1 4))
    × AreBlocks (block_insert_and_coalesce two_blocks (block 1 4) [])
block_insert_and_coalesce-total_example =
    block_insert_and_coalesce-total two_blocks (block 1 4) (omega arith) two_blocks-AreBlocks
