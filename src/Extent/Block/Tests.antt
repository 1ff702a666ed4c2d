-- ===== src/Extent/Block/Tests.antt =====
-- Runs of the block manager, and witnesses.
use cse_2014_undergrad.Prelude.{◌≤◌, true, false, not, ◌&&◌, ◌||◌, ◌≡◌, ◌⊎◌, refl, arith, ◌==◌}
use cse_2014_undergrad.Extent.Block.{
  Block, blank_disk, BlockManager, format, alloc_from, alloc_block, free_block, looks_used,
}
use cse_2014_undergrad.Extent.Block.Place.{used}
use cse_2014_undergrad.Extent.Block.Bitmap.{IsFormatted, alloc_block_lem, free_block-used}

abbrev zeros : Block
zeros i = 0

format-IsFormatted : IsFormatted format
format-IsFormatted = record { blocks = refl; inodes = refl }

first_block : (alloc_block zeros format).0 ≡ 353
unfolding alloc_block alloc_from looks_used
first_block = refl

alloc_block_lem_example :
    let k = (alloc_block zeros format).0 in
    (353 ≤ k)
    × (k ≤ 400)
    × (used blank_disk k ≡ false)
    × ((k ≤ 380) ⊎ (used blank_disk 380 ≡ true))
    × (used (BlockManager.disk (alloc_block zeros format).1) 380
        ≡ (k == 380 || used blank_disk 380))
unfolding used
alloc_block_lem_example =
    alloc_block_lem zeros format 400 380 format-IsFormatted (λ id i. omega arith) (omega arith)
      (omega arith) refl (omega arith) (omega arith)

free_block-used_example :
    used (BlockManager.disk (free_block zeros format 400)) 401
    ≡ (not (400 == 401) && used blank_disk 401)
free_block-used_example =
    free_block-used zeros format 400 401 (λ id i. omega arith) (omega arith) (omega arith)

-- All blocks that the bitmap covers are in use.
abbrev full : BlockManager
full = record format { disk = λ id i. 255 }

beyond : (alloc_block zeros full).0 ≡ 4099
unfolding alloc_block alloc_from looks_used
beyond = refl
