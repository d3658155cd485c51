-- ===== src/Pmm/Alloc.antt =====
-- kernel/src/pmm.c: `alloc`.
use nju_os_lab.Prelude.{
  ℕ, ◌+◌, ◌-◌, ◌≤◌, ◌<◌, ◌≡◌, refl, List, [], ◌∷◌, ◌++◌, ◌%◌, All, arith, some, none, All-append,
  All-split, All-map, Option-cases, Option, inl, inr, leb, Bool-cases,
}
use nju_os_lab.Pmm.{
  Extent, Cursor, Pmm, word, header_size, node_find_size, node_split, alloc, block_clear,
}
use nju_os_lab.Pmm.Layout.{
  stop, Apart, Chain, total, IsValid, total-append, Chain-split, Chain-above, Chain-replace,
}

-- What a cursor is to the list that it was found in.
abbrev pub At : List Extent → Cursor → Type 0
At list c = list ≡ c.before ++ (c.here ∷ c.after)

pub record Found (size : ℕ) (list : List Extent) (c : Cursor) : Type 0 where
  pub at : At list c
  pub fits : size ≤ c.here.size
  pub first : All (λ x. x.size < size) c.before

-- The search is first fit.
pub find_size-Found :
    (size : ℕ) (list : List Extent) {c : Cursor}
    → node_find_size size list ≡ some c
    → Found size list c
unfolding node_find_size
find_size-Found size [] h = cc
find_size-Found size (x ∷ l) {c} h = elim (Bool-cases (leb size x.size)) [
  | inl fits ↦ ground arith
  | inr small ↦ elim (Option-cases (node_find_size size l)) [
    | inl e ↦ ground arith
    | inr (d, e) ↦ ground (arith, find_size-Found size l {c = d} e)
  ]
]

find_size-none :
    (size : ℕ) (list : List Extent)
    → node_find_size size list ≡ none
    → All (λ x. x.size < size) list
unfolding node_find_size
find_size-none size [] h = tt
find_size-none size (x ∷ l) h = (ground arith, find_size-none size l (ground arith))

-- What `node_split` returns of a node that fits, when nothing wraps around.
pub record Split (nd : Extent) (size : ℕ) (bk rest : Extent) : Type 0 where
  pub same : bk.start ≡ nd.start
  pub sized : bk.size ≡ size
  pub next : rest.start ≡ stop bk
  pub ends : stop rest ≡ stop nd

pub node_split-eq-some :
    (nd : Extent) (size : ℕ)
    → stop nd < word
    → size + header_size ≤ nd.size
    → (bk : Extent) × (rest : Extent) × (node_split nd size ≡ some (bk, rest))
      × Split nd size bk rest
unfolding node_split
node_split-eq-some nd size small fits = (
  record { start = nd.start; size = size },
  record { start = nd.start + header_size + size; size = nd.size - size - header_size },
  ground arith,
  ground arith,
)

-- A node `nd` of a valid heap gives way to its rest, and a block takes the front of `nd`.
module _ (p : Pmm) (valid : IsValid p) (c : Cursor) (at : At p.free_list c) where
  around :
      All (λ x. (p.pm_start ≤ x.start) × (stop x < c.here.start)) c.before
      × (p.pm_start ≤ c.here.start)
      × Chain (stop c.here + 1) c.after p.pm_end
  around = Chain-split p.pm_start p.pm_end c.before c.here c.after (rw at at (valid.chain))

  pub here_inside : (p.pm_start ≤ c.here.start) × (stop c.here ≤ p.pm_end)
  here_inside = omega (arith, around, Chain-above c.after around.2)

  here-Apart : All (λ b. All (Apart b) c.before × Apart b c.here × All (Apart b) c.after) p.blocks
  here-Apart =
      All-map _ p.blocks
        (λ b h.
          let (hb, hr) = All-split (Apart b) c.before (c.here ∷ c.after) (rw at at h) in
          (hb, hr.0, hr.1))
        valid.apart

  module _ (size : ℕ) (bk rest : Extent) (cut : Split c.here size bk rest) where
    carved : Pmm
    carved = record p {
      free_list = c.before ++ (rest ∷ c.after);
      blocks = bk ∷ p.blocks;
      bytes = block_clear bk p.bytes;
    }

    carved-Apart_new : All (Apart bk) (c.before ++ (rest ∷ c.after))
    carved-Apart_new =
        All-append (Apart bk) c.before (rest ∷ c.after)
          (All-map _ c.before (λ x h. inr (omega arith)) around.0)
          (
            inl (omega arith),
            All-map _ c.after (λ x h. inl (omega arith)) (Chain-above c.after around.2).0,
          )

    carved-Apart_old : All (λ b. All (Apart b) (c.before ++ (rest ∷ c.after))) p.blocks
    carved-Apart_old =
        All-map _ p.blocks
          (λ b h. All-append (Apart b) c.before (rest ∷ c.after) h.0 (omega arith, h.2)) here-Apart

    carved-disjoint : All (Apart bk) p.blocks
    carved-disjoint = All-map _ p.blocks (λ b h. omega arith) here-Apart

    carved-total :
        total (c.before ++ (rest ∷ c.after)) + (header_size + bk.size) ≡ total p.free_list
    carved-total = rw at (
        omega
          (arith, total-append c.before (rest ∷ c.after), total-append c.before (c.here ∷ c.after)))

    carved-IsValid : IsValid carved
    unfolding carved
    carved-IsValid = record {
      low = valid.low;
      small = valid.small;
      chain =
          Chain-replace p.pm_start p.pm_end c.before c.here rest c.after c.after
            (rw at at (valid.chain)) (omega arith) (rw cut.ends around.2);
      inside = (omega (arith, here_inside), valid.inside);
      apart = (carved-Apart_new, carved-Apart_old);
      disjoint = (carved-disjoint, valid.disjoint);
      full = omega (arith, carved-total, valid.full);
    }

-- What `alloc` promises on each of its two ways out.
abbrev pub Allocated : ℕ → Pmm → Option ℕ → Pmm → Type 0
Allocated size p none q = (q ≡ p) × All (λ x. x.size < size + header_size) p.free_list
Allocated size p (some ptr) q =
    (bk : Extent) × (q.blocks ≡ bk ∷ p.blocks)
    × (bk.size ≡ size)
    × (ptr ≡ bk.start + header_size)
    × (q.bytes ≡ block_clear bk p.bytes)

-- On a valid heap, for a request that does not wrap around with its header, `alloc` does not halt
-- and keeps the heap valid. It returns `NULL`, with nothing changed, only if every free node is
-- smaller than the request and a header. Else it returns the address behind the header of one new
-- block of the size asked for, all other blocks stay, and the bytes of the new block are cleared.
pub alloc_lem :
    (p : Pmm) (size : ℕ)
    → IsValid p
    → size + header_size < word
    → (r : Option ℕ) × (q : Pmm) × (alloc size p ≡ some (r, q)) × IsValid q × Allocated size p r q
unfolding alloc carved
alloc_lem p size valid small =
    elim (Option-cases (node_find_size ((size + header_size) % word) p.free_list)) [
      | inl e ↦ (
        none,
        p,
        rw (alloc, e),
        valid,
        (refl, find_size-none (size + header_size) p.free_list (ground arith)),
      )
      | inr (c, e) ↦
          let found = find_size-Found ((size + header_size) % word) p.free_list e in
          let inside = here_inside p valid c found.at in
          let (bk, rest, split, cut) =
            node_split-eq-some c.here size (omega (arith, inside, valid.small))
              (omega (arith, found.fits)) in
          (
            some (bk.start + header_size),
            carved p valid c found.at size bk rest cut,
            rw (alloc, e, split) (ground (arith, inside, valid.small)),
            carved-IsValid p valid c found.at size bk rest cut,
            (bk, refl, cut.sized, refl, refl),
          )
    ]
