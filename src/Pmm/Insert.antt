-- ===== src/Pmm/Insert.antt =====
-- kernel/src/pmm.c: how `free` puts a node back into the free list.
use nju_os_lab.Prelude.{
  ℕ, ◌+◌, ◌≤◌, ◌<◌, ◌≡◌, refl, List, [], ◌∷◌, ◌++◌, All, arith, some, none, ap, All-append,
  All-split, Option-cases, inl, inr, Bool-cases, ◌==◌,
}
use nju_os_lab.Pmm.{Extent, Cursor, word, header_size, node_find_position, join_again, insert_node}
use nju_os_lab.Pmm.Layout.{
  stop, Apart, Chain, total, Inside, total-append, Chain-split, Chain-replace,
}
use nju_os_lab.Pmm.Combine.{
  Below, find_position-none, find_position-Below, combine_adjacent, combine_apart, combine_lem,
}

-- The free list after a block has joined it.
pub record Inserted (lo hi : ℕ) (nd : Extent) (list joined : List Extent) : Type 0 where
  pub eq : insert_node nd list ≡ some joined
  pub chain : Chain lo joined hi
  pub same : total joined ≡ total list + header_size + nd.size
  pub apart : (x : Extent) → Apart x nd → All (Apart x) list → All (Apart x) joined

module _ (lo hi : ℕ) (nd : Extent) (list : List Extent) (small : hi < word)
    (inside : Inside lo hi nd) (chain : Chain lo list hi) (free_apart : All (Apart nd) list) where
  -- What lies above `nd` by its address lies behind it.
  Chain-after :
      (l : ℕ) (a : List Extent)
      → Chain l a hi
      → All (λ x. nd.start < x.start) a
      → All (Apart nd) a
      → Chain (stop nd) a hi
  Chain-after l [] h above ap = omega arith
  Chain-after l (x ∷ a) h above ap = ground arith

  insert_head :
      node_find_position nd.start list ≡ none → (j : List Extent) × Inserted lo hi nd list j
  insert_head e =
      let behind = Chain-after lo list chain (find_position-none nd.start list e) free_apart in
      let (b, big, after, j) = combine_lem hi nd list small (inside.1) behind in
      (
        big ∷ after,
        record {
          eq = unfold insert_node in rw (insert_node, e, j.eq);
          chain = (omega (arith, j.start), j.chain);
          same = omega (arith, j.same);
          apart = j.apart;
        },
      )

  module _ (c : Cursor) (e : node_find_position nd.start list ≡ some c) where
    found : Below nd.start list c
    found = find_position-Below nd.start list e

    around :
        All (λ x. (lo ≤ x.start) × (stop x < c.here.start)) c.before
        × (lo ≤ c.here.start)
        × Chain (stop c.here + 1) c.after hi
    around = Chain-split lo hi c.before c.here c.after (rw (found.at) at chain)

    nd-Apart : All (Apart nd) c.before × Apart nd c.here × All (Apart nd) c.after
    nd-Apart =
        let (hb, hr) =
          All-split (Apart nd) c.before (c.here ∷ c.after) (rw (found.at) at free_apart) in
        (hb, hr.0, hr.1)

    behind : (stop c.here ≤ nd.start) × Chain (stop nd) c.after hi
    behind = (
      omega (arith, found.below, nd-Apart.1),
      Chain-after (stop c.here + 1) c.after around.2 found.last nd-Apart.2,
    )

    -- From the node below `nd` on: the list after both attempts to join.
    Tail : (big : Extent) (after : List Extent) → Type 0
    Tail big after = record {
      eq : insert_node nd list ≡ some (c.before ++ (big ∷ after));
      start : big.start ≡ c.here.start;
      chain : Chain (stop big + 1) after hi;
      same : total (big ∷ after) ≡ header_size + nd.size + total (c.here ∷ c.after);
      apart :
          (x : Extent)
          → Apart x nd
          → All (Apart x) (c.here ∷ c.after)
          → All (Apart x) (big ∷ after);
    }

    insert_after : (big : Extent) × (after : List Extent) × Tail big after
    unfolding Tail
    insert_after = elim (Bool-cases (stop c.here == nd.start)) [
      | inl adj ↦
          let wide : Extent = record {
            start = c.here.start;
            size = c.here.size + nd.size + header_size;
          } in
          let (b, big, after, j) =
            combine_lem hi wide c.after small (ground (arith, inside)) (ground (arith, behind)) in
          (
            big,
            after,
            record {
              eq =
                  unfold insert_node join_again in
                  rw (
                    insert_node,
                    e,
                    combine_adjacent c.here nd c.after (omega (arith, inside)) (ground arith),
                    j.eq,
                  );
              start = j.start;
              chain = j.chain;
              same = omega (arith, j.same);
              apart = λ x hx hr. j.apart x (ground (arith, hr.0)) hr.1;
            },
          )
      | inr gap ↦
          let (b, big, after, j) = combine_lem hi nd c.after small inside.1 behind.1 in
          (
            c.here,
            big ∷ after,
            record {
              eq =
                  unfold insert_node join_again in
                  rw (
                    insert_node,
                    e,
                    combine_apart c.here nd c.after (omega (arith, inside, behind)) (ground arith),
                    j.eq,
                  );
              start = refl;
              chain = ground (arith, j.start, j.chain, behind.0);
              same = omega (arith, j.same);
              apart = λ x hx hr. (hr.0, j.apart x hx hr.1);
            },
          )
    ]

    insert_middle : (j : List Extent) × Inserted lo hi nd list j
    unfolding Tail
    insert_middle =
        let (big, after, t) = insert_after in
        (
          c.before ++ (big ∷ after),
          record {
            eq = t.eq;
            chain =
                Chain-replace lo hi c.before c.here big c.after after (rw (found.at) at chain)
                  (omega (arith, t.start)) t.chain;
            same = rw (found.at) (
                omega (
                  arith,
                  t.same,
                  total-append c.before (big ∷ after),
                  total-append c.before (c.here ∷ c.after),
                ));
            apart = λ x hx hl.
                let (hb, hr) =
                  All-split (Apart x) c.before (c.here ∷ c.after) (rw (found.at) at hl) in
                All-append (Apart x) c.before (big ∷ after) hb (t.apart x hx hr);
          },
        )

  pub insert_lem : (j : List Extent) × Inserted lo hi nd list j
  insert_lem = elim (Option-cases (node_find_position nd.start list)) [
    | inl e ↦ insert_head e
    | inr (c, e) ↦ insert_middle c e
  ]
