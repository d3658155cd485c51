-- ===== src/Pmm/Tests.antt =====
-- Runs of the allocator on a small heap, and each theorem at an input.
use nju_os_lab.Prelude.{ℕ, ◌+◌, ◌<◌, ◌≡◌, refl, [], ◌∷◌, ◌++◌, All, arith, some, Option}
use nju_os_lab.Pmm.{
  Extent, Pmm, header_size, init, alloc, free, block_clear, node_find_size, node_split, block_at,
  insert_node, node_find_position, node_combine, join_again,
}
use nju_os_lab.Pmm.Layout.{IsValid}
use nju_os_lab.Pmm.Alloc.{alloc_lem, Allocated}
use nju_os_lab.Pmm.Release.{free_lem}
use nju_os_lab.Pmm.RoundTrip.{free-alloc}
use nju_os_lab.Pmm.Content.{init-IsValid, alloc_bytes}

abbrev ext : ℕ → ℕ → Extent
ext a n = record { start = a; size = n }

abbrev ones : ℕ → ℕ
ones _ = 1

abbrev fresh : Pmm
fresh = record {
  pm_start = 100;
  pm_end = 300;
  free_list = ext 100 188 ∷ [];
  blocks = [];
  bytes = ones;
}

-- Two blocks in use, with a free node between them and one behind them.
abbrev used : Pmm
used = record {
  pm_start = 100;
  pm_end = 300;
  free_list = ext 132 18 ∷ ext 182 106 ∷ [];
  blocks = ext 162 8 ∷ ext 100 20 ∷ [];
  bytes = ones;
}

fresh-IsValid : IsValid fresh
fresh-IsValid = omega arith

used-IsValid : IsValid used
used-IsValid = omega arith

init-fresh : init 100 300 ones ≡ fresh
unfolding init
init-fresh = refl

init-IsValid_example : IsValid (init 100 300 ones)
init-IsValid_example = init-IsValid 100 300 ones (omega arith) (omega arith) (omega arith)

-- The first node is too small for 10 bytes and a header.
alloc_second :
    alloc 10 used
    ≡ some (
      some 194,
      record used {
        free_list = ext 132 18 ∷ ext 204 84 ∷ [];
        blocks = ext 182 10 ∷ ext 162 8 ∷ ext 100 20 ∷ [];
        bytes = block_clear (ext 182 10) ones;
      },
    )
unfolding alloc node_find_size node_split
alloc_second = refl

-- Freeing the block between two free nodes joins all three.
free_middle :
    free 174 used ≡ some (record used { free_list = ext 132 156 ∷ []; blocks = ext 100 20 ∷ [] })
unfolding free block_at insert_node node_find_position node_combine join_again
free_middle = refl

alloc_lem_example :
    (r : Option ℕ) × (q : Pmm) × (alloc 10 used ≡ some (r, q)) × IsValid q × Allocated 10 used r q
alloc_lem_example = alloc_lem used 10 used-IsValid (omega arith)

free_lem_example :
    (q : Pmm) × (free (162 + header_size) used ≡ some q)
    × IsValid q
    × (q.blocks ≡ [] ++ ext 100 20 ∷ [])
    × (q.bytes ≡ ones)
free_lem_example = free_lem used (ext 162 8) [] (ext 100 20 ∷ []) used-IsValid refl

abbrev after_alloc : Pmm
after_alloc = record fresh {
  free_list = ext 122 166 ∷ [];
  blocks = ext 100 10 ∷ [];
  bytes = block_clear (ext 100 10) ones;
}

alloc_first : alloc 10 fresh ≡ some (some 112, after_alloc)
unfolding alloc node_find_size node_split
alloc_first = refl

free-alloc_example :
    free 112 after_alloc ≡ some (record fresh { bytes = block_clear (ext 100 10) ones })
free-alloc_example = free-alloc fresh 10 112 after_alloc fresh-IsValid (omega arith) alloc_first

alloc_bytes_example :
    ((i : ℕ) → i < 10 → after_alloc.bytes (112 + i) ≡ 0)
    × All
        (λ x.
          (i : ℕ)
          → i < x.size
          → after_alloc.bytes (x.start + header_size + i) ≡ ones (x.start + header_size + i))
        (fresh.blocks)
alloc_bytes_example = alloc_bytes fresh 10 112 after_alloc fresh-IsValid (omega arith) alloc_first
