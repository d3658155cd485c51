-- ===== src/Pmm.antt =====
-- kernel/src/pmm.c, the physical memory manager: a first-fit allocator over a list of free nodes.
-- Addresses and sizes are those of the 32-bit build (ARCH x86-qemu), where `sizeof(node)` and
-- `sizeof(block)` are 12. `pmm_lock` makes `alloc` and `free` one step each.
pub mod Layout
pub mod Alloc
pub mod Content
mod Tests
pub mod Combine
pub mod Insert
pub mod RoundTrip
pub mod Release
use nju_os_lab.Prelude.{
  ℕ, ◌+◌, ◌-◌, ◌*◌, ◌%◌, ◌^◌, Bool, true, false, Option, none, some, List, [], ◌∷◌, ◌++◌, ltb, leb,
  ◌==◌, ◌&&◌, if◌then◌else◌, ◌>>=◌,
}

abbrev pub word : ℕ
word = 2 ^ 32

abbrev pub header_size : ℕ
header_size = 12

-- A `node` or a `block`: the address of the header and the size of what follows it. Which of the
-- two lists below holds it stands for the field `magic`, and the list's order for `next`.
pub record Extent : Type 0 where
  pub start : ℕ
  pub size : ℕ

-- `blocks` are the block headers that the memory holds, and `bytes` is the memory behind headers.
pub record Pmm : Type 0 where
  pub pm_start : ℕ
  pub pm_end : ℕ
  pub free_list : List Extent
  pub blocks : List Extent
  pub bytes : ℕ → ℕ

-- A list around one of its elements.
pub record Cursor : Type 0 where
  pub before : List Extent
  pub here : Extent
  pub after : List Extent

abbrev pub push_before : Extent → Cursor → Cursor
push_before nd c = record c { before = nd ∷ c.before }

-- The first node, and what follows its header. `none`: not enough space. A size that wraps around with its
-- header is not modelled: there the two headers overlap.
pub node_split : Extent → ℕ → Option (Extent × Extent)
node_split nd first_size =
    if ltb nd.size ((first_size + header_size) % word)
    then none
    else some (
      record nd { size = first_size },
      record {
        start = (nd.start + header_size + first_size) % word;
        size = (nd.size + 2 * word - first_size - header_size) % word;
      },
    )

-- The end of a node in `uintptr_t`.
abbrev pub node_end : Extent → ℕ
node_end nd = (nd.start + header_size + nd.size) % word

-- On the list from `nd` on: whether `nd` took in its successor, and the list after that. At the end
-- of the list `next` is the address 0, and the second assertion halts if the node ends there.
pub node_combine : Extent → List Extent → Option (Bool × List Extent)
node_combine nd [] = if node_end nd == 0 then none else some (false, nd ∷ [])
node_combine nd (next ∷ rest) =
    if node_end nd == next.start
    then some (true, record nd { size = (nd.size + next.size + header_size) % word } ∷ rest)
    else some (false, nd ∷ next ∷ rest)

-- The first node of at least that size; `last` is the end of `before`.
pub node_find_size : ℕ → List Extent → Option Cursor
node_find_size size [] = none
node_find_size size (cur ∷ rest) =
    let next = node_find_size size rest in
    if leb size cur.size
    then some (record { before = []; here = cur; after = rest })
    else elim next [ none ↦ none | some c ↦ some (push_before cur c) ]

-- The last node at or below that address, in the order of the list.
pub node_find_position : ℕ → List Extent → Option Cursor
node_find_position pos [] = none
node_find_position pos (cur ∷ rest) = elim (node_find_position pos rest) [
  | some c ↦ some (push_before cur c)
  | none ↦
      if leb cur.start pos then some (record { before = []; here = cur; after = rest }) else none
]

-- `memset` of the `size` bytes behind the header to 0, for a block that ends below 2 ^ 32.
pub block_clear : Extent → (ℕ → ℕ) → ℕ → ℕ
block_clear bk bytes a =
    if leb (bk.start + header_size) a && ltb a (bk.start + header_size + bk.size)
    then 0
    else bytes a

pub init : (heap_start heap_end : ℕ) → (ℕ → ℕ) → Pmm
init heap_start heap_end bytes = record {
  pm_start = heap_start;
  pm_end = heap_end;
  free_list =
      record { start = heap_start; size = (heap_end + 2 * word - heap_start - header_size) % word }
      ∷ [];
  blocks = [];
  bytes = bytes;
}

-- The inner `none` is `NULL`. The node leaves the list at its place, and its rest takes that place.
pub alloc : ℕ → Pmm → Option (Option ℕ × Pmm)
alloc size p = elim (node_find_size ((size + header_size) % word) p.free_list) [
  | none ↦ some (none, p)
  | some c ↦ do
    (bk, rest) ← node_split c.here size
    some (
      some ((bk.start + header_size) % word),
      record p {
        free_list = c.before ++ (rest ∷ c.after);
        blocks = bk ∷ p.blocks;
        bytes = block_clear bk p.bytes;
      },
    )
]

-- The block whose header stands at that address, and the other blocks; `none` if the memory there
-- does not hold the magic number of a block.
pub block_at : ℕ → List Extent → Option (Extent × List Extent)
block_at a [] = none
block_at a (bk ∷ rest) =
    let later = block_at a rest in
    if bk.start == a
    then some (bk, rest)
    else elim later [ none ↦ none | some (found, others) ↦ some (found, bk ∷ others) ]

-- After a first join `tnd` may also take in the next node; else `nd` may take in its successor.
pub join_again : Extent → Extent → List Extent → Bool × List Extent → Option (List Extent)
join_again tnd nd after (true, big ∷ rest) = do (_, joined) ← node_combine big rest; some joined
join_again tnd nd after (true, []) = none
join_again tnd nd after (false, _) = do (_, joined) ← node_combine nd after; some (tnd ∷ joined)

-- The node is put behind `tnd`, the last node below it, or at the head.
pub insert_node : Extent → List Extent → Option (List Extent)
insert_node nd list = elim (node_find_position nd.start list) [
  | none ↦ do (_, joined) ← node_combine nd list; some joined
  | some c ↦ do
    first ← node_combine c.here (nd ∷ c.after)
    tail ← join_again c.here nd c.after first
    some (c.before ++ tail)
]

pub free : ℕ → Pmm → Option Pmm
free ptr p = if ptr == 0 then some p else do
  (nd, others) ← block_at ((ptr + word - header_size) % word) p.blocks
  list ← insert_node nd p.free_list
  some (record p { free_list = list; blocks = others })
