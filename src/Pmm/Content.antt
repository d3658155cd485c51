-- ===== src/Pmm/Content.antt =====
-- kernel/src/pmm.c: the start of the heap, the contents of memory, and requests near the word's end.
use nju_os_lab.Prelude.{ℕ, ◌+◌, ◌≤◌, ◌<◌, ◌≡◌, All, All-map, arith, some, none, ap, Option}
use nju_os_lab.Pmm.{Extent, Pmm, word, header_size, init, alloc, block_clear}
use nju_os_lab.Pmm.Layout.{Apart, IsValid}
use nju_os_lab.Pmm.Alloc.{alloc_lem, Allocated}

-- `init` makes one free node of a heap that holds a header and ends below 2 ^ 32.
pub init-IsValid :
    (s e : ℕ) (bytes : ℕ → ℕ) → 0 < s → s + header_size ≤ e → e < word → IsValid (init s e bytes)
unfolding init
init-IsValid s e bytes pos room small = omega arith

module _ (bk : Extent) (bytes : ℕ → ℕ) where
  clear_inside : (i : ℕ) → i < bk.size → block_clear bk bytes (bk.start + header_size + i) ≡ 0
  unfolding block_clear
  clear_inside i h = ground arith

  clear-Apart :
      (x : Extent) (i : ℕ)
      → Apart bk x
      → i < x.size
      → block_clear bk bytes (x.start + header_size + i) ≡ bytes (x.start + header_size + i)
  unfolding block_clear
  clear-Apart x i ap h = ground arith

-- On a valid heap, a block just returned for a request that does not wrap around holds zeros only, and no byte of any other block has changed.
pub alloc_bytes :
    (p : Pmm) (size ptr : ℕ) (q : Pmm)
    → IsValid p
    → size + header_size < word
    → alloc size p ≡ some (some ptr, q)
    → ((i : ℕ) → i < size → q.bytes (ptr + i) ≡ 0)
      × All
          (λ x.
            (i : ℕ)
            → i < x.size
            → q.bytes (x.start + header_size + i) ≡ p.bytes (x.start + header_size + i))
          p.blocks
alloc_bytes p size ptr q valid small e =
    let (r, q', eq, valid', done) = alloc_lem p size valid small in
    go r q' (cc eq) (cc eq) valid' done
  where
    go :
        (r : Option ℕ) (q' : Pmm)
        → r ≡ some ptr
        → q' ≡ q
        → IsValid q'
        → Allocated size p r q'
        → ((i : ℕ) → i < size → q.bytes (ptr + i) ≡ 0)
          × All
              (λ x.
                (i : ℕ)
                → i < x.size
                → q.bytes (x.start + header_size + i) ≡ p.bytes (x.start + header_size + i))
              p.blocks
    go none q' er eq valid' done = cc
    go (some ptr') q' er eq valid' (bk, blocks, sized, at, bytes) =
        let now : q.bytes ≡ block_clear bk p.bytes = cc in
        let here : ptr ≡ bk.start + header_size = cc in
        let apart : All (Apart bk) p.blocks = (rw blocks at (valid'.disjoint)).0 in
        (
          λ i h. rw (now, here) (clear_inside bk p.bytes i (omega arith)),
          All-map _ p.blocks (λ x ax i h. rw now (clear-Apart bk p.bytes x i ax h)) apart,
        )
