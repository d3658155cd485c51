-- ===== src/Pmm/RoundTrip.antt =====
-- kernel/src/pmm.c: `free` undoes `alloc`, down to the free list.
use nju_os_lab.Prelude.{
  ℕ, ◌+◌, ◌≤◌, ◌<◌, ◌≡◌, refl, List, [], ◌∷◌, ◌++◌, ◌%◌, All, arith, some, none, sym, All-map,
  Option-cases, inl, inr,
}
use nju_os_lab.Pmm.{
  Extent, Cursor, Pmm, word, header_size, node_find_size, node_split, block_clear,
  node_find_position, insert_node, join_again, alloc, free,
}
use nju_os_lab.Pmm.Layout.{stop, Chain, IsValid, Chain-split, Chain-above}
use nju_os_lab.Pmm.Alloc.{Split, find_size-Found, node_split-eq-some, here_inside}
use nju_os_lab.Pmm.Combine.{combine_adjacent, combine_apart}
use nju_os_lab.Pmm.Release.{free-header, block_at-here}

find_position_of_above :
    (pos : ℕ) (l : List Extent) → All (λ x. pos < x.start) l → node_find_position pos l ≡ none
unfolding node_find_position
find_position_of_above pos [] h = refl
find_position_of_above pos (x ∷ l) h = ground (arith, find_position_of_above pos l h.1)

find_position_of_le :
    (pos : ℕ) (x : Extent) (l : List Extent)
    → x.start ≤ pos
    → (c : Cursor) × (node_find_position pos (x ∷ l) ≡ some c)
unfolding node_find_position
find_position_of_le pos x l h = elim (Option-cases (node_find_position pos l)) [
  | inl e ↦ (record { before = []; here = x; after = l }, ground arith)
  | inr (c, e) ↦ (record c { before = x ∷ c.before }, ground arith)
]

insert-cons :
    (nd x : Extent) (l j : List Extent) {c : Cursor}
    → node_find_position nd.start l ≡ some c
    → insert_node nd l ≡ some j
    → insert_node nd (x ∷ l) ≡ some (x ∷ j)
unfolding insert_node node_find_position
insert-cons nd x l j e h = ground (arith, e, h)

module _ (hi : ℕ) (small : hi < word) (nd : Extent) (size : ℕ) (bk rest : Extent)
    (cut : Split nd size bk rest) (a : List Extent) where
  whole : (header_size + size + rest.size ≡ nd.size)
  whole = omega (arith, cut.ends, cut.next, cut.same, cut.sized)

  insert_front : (lo : ℕ) → Chain lo (nd ∷ a) hi → insert_node bk (rest ∷ a) ≡ some (nd ∷ a)
  unfolding insert_node
  insert_front lo h =
      rw
        (
          insert_node,
          find_position_of_above bk.start (rest ∷ a) (
            omega (arith, cut.next),
            All-map _ a (λ x k. omega (arith, cut.same)) (Chain-above a h.1).0,
          ),
          combine_adjacent bk rest a (omega (arith, cut.ends, Chain-above a h.1)) (sym cut.next),
        )
        (ground (arith, cut.same, cut.sized, whole))

  insert_behind :
      (y : Extent) (lo : ℕ)
      → Chain lo (y ∷ nd ∷ a) hi
      → insert_node bk (y ∷ rest ∷ a) ≡ some (y ∷ nd ∷ a)
  unfolding insert_node node_find_position join_again
  insert_behind y lo h =
      let above = find_position_of_above bk.start (rest ∷ a) (
        omega (arith, cut.next),
        All-map _ a (λ x k. omega (arith, cut.same)) (Chain-above a h.1.1).0,
      ) in
      let c =
        combine_apart y bk (rest ∷ a) (omega (arith, Chain-above a h.1.1))
          (omega (arith, cut.same)) in
      let d =
        combine_adjacent bk rest a (omega (arith, cut.ends, Chain-above a h.1.1)) (sym cut.next) in
      ground (arith, above, c, d, cut.same, cut.sized, whole, h)

  insert_restore :
      (b : List Extent) (lo : ℕ)
      → Chain lo (b ++ nd ∷ a) hi
      → insert_node bk (b ++ rest ∷ a) ≡ some (b ++ nd ∷ a)
  insert_restore [] lo h = insert_front lo h
  insert_restore (y ∷ []) lo h = insert_behind y lo h
  insert_restore (y ∷ z ∷ b) lo h =
      let below = (Chain-split (stop y + 1) hi (z ∷ b) nd a h.1).0.0 in
      let (c, e) =
        find_position_of_le bk.start z (b ++ (rest ∷ a)) (omega (arith, below, cut.same)) in
      insert-cons bk y (z ∷ b ++ (rest ∷ a)) (z ∷ b ++ (nd ∷ a)) e
        (insert_restore (z ∷ b) (stop y + 1) h.1)

abbrev after_alloc : Pmm → Cursor → Extent → Extent → Pmm
after_alloc p c bk rest = record p {
  free_list = c.before ++ (rest ∷ c.after);
  blocks = bk ∷ p.blocks;
  bytes = block_clear bk p.bytes;
}

alloc-eq :
    (p : Pmm) (size : ℕ) (c : Cursor) {bk rest : Extent}
    → node_find_size ((size + header_size) % word) p.free_list ≡ some c
    → node_split c.here size ≡ some (bk, rest)
    → bk.start + header_size < word
    → alloc size p ≡ some (some (bk.start + header_size), after_alloc p c bk rest)
unfolding alloc
alloc-eq p size c {bk} e split small =
    let exact : (bk.start + header_size) % word ≡ bk.start + header_size = omega arith in
    rw (alloc, e, split, exact)

-- On a valid heap, freeing what an `alloc` has just returned puts every node and every block back
-- as it was before the call. Only the bytes that `alloc` cleared differ.
pub free-alloc :
    (p : Pmm) (size ptr : ℕ) (q : Pmm)
    → IsValid p
    → size + header_size < word
    → alloc size p ≡ some (some ptr, q)
    → free ptr q ≡ some (record p { bytes = q.bytes })
unfolding alloc
free-alloc p size ptr q valid small e =
    elim (Option-cases (node_find_size ((size + header_size) % word) p.free_list)) [
      | inl no_node ↦ absurd (ground arith)
      | inr (c, found_at) ↦
          let found = find_size-Found ((size + header_size) % word) p.free_list found_at in
          let inside = here_inside p valid c found.at in
          let (bk, rest, split, cut) =
            node_split-eq-some c.here size (omega (arith, inside, valid.small))
              (omega (arith, found.fits)) in
          let restored =
            insert_restore p.pm_end valid.small c.here size bk rest cut c.after c.before p.pm_start
              (rw (found.at) at (valid.chain)) in
          let low : bk.start + header_size < word = omega (arith, inside, cut.same, valid.small) in
          let known : alloc size p ≡ some (some (bk.start + header_size), after_alloc p c bk rest) =
            alloc-eq p size c found_at split low in
          let at_ptr : ptr ≡ bk.start + header_size = cc known in
          let now : q ≡ after_alloc p c bk rest = cc known in
          rw
            (
              at_ptr,
              now,
              free-header (after_alloc p c bk rest) bk.start low,
              block_at-here bk [] p.blocks tt,
              restored,
            )
            (rw (found.at) refl)
    ]
