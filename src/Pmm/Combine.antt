-- ===== src/Pmm/Combine.antt =====
-- kernel/src/pmm.c: `node_find_position` and `node_combine`.
use nju_os_lab.Prelude.{
  ℕ, ◌+◌, ◌≤◌, ◌<◌, ◌≡◌, refl, List, [], ◌∷◌, ◌++◌, All, arith, some, none, Option-cases, inl, inr,
  Bool, true, false, Bool-cases, ◌≢◌, ◌==◌,
}
use nju_os_lab.Pmm.{Extent, Cursor, word, header_size, node_find_position, node_combine}
use nju_os_lab.Pmm.Layout.{stop, Apart, Chain, total, Chain-above}

pub record Below (pos : ℕ) (list : List Extent) (c : Cursor) : Type 0 where
  pub at : list ≡ c.before ++ (c.here ∷ c.after)
  pub below : c.here.start ≤ pos
  pub last : All (λ x. pos < x.start) c.after

pub find_position-none :
    (pos : ℕ) (list : List Extent)
    → node_find_position pos list ≡ none
    → All (λ x. pos < x.start) list
unfolding node_find_position
find_position-none pos [] h = tt
find_position-none pos (x ∷ l) h = (ground arith, find_position-none pos l (ground arith))

pub find_position-Below :
    (pos : ℕ) (list : List Extent) {c : Cursor}
    → node_find_position pos list ≡ some c
    → Below pos list c
unfolding node_find_position
find_position-Below pos [] h = cc
find_position-Below pos (x ∷ l) {c} h = elim (Option-cases (node_find_position pos l)) [
  | inl e ↦ ground (arith, find_position-none pos l e)
  | inr (d, e) ↦ ground (arith, find_position-Below pos l {c = d} e)
]

pub combine_adjacent :
    (nd next : Extent) (rest : List Extent)
    → stop next < word
    → stop nd ≡ next.start
    → node_combine nd (next ∷ rest)
      ≡ some (true, record nd { size = nd.size + next.size + header_size } ∷ rest)
unfolding node_combine
combine_adjacent nd next rest small e = ground arith

pub combine_apart :
    (nd next : Extent) (rest : List Extent)
    → stop nd < word
    → stop nd ≢ next.start
    → node_combine nd (next ∷ rest) ≡ some (false, nd ∷ next ∷ rest)
unfolding node_combine
combine_apart nd next rest small e = ground arith

-- `nd` and what follows it, after the attempt to join them: the first node starts where `nd` does,
-- and the nodes cover what they did.
pub record Joined (hi : ℕ) (nd : Extent) (rest : List Extent) (b : Bool) (big : Extent)
    (after : List Extent) : Type 0 where
  pub eq : node_combine nd rest ≡ some (b, big ∷ after)
  pub start : big.start ≡ nd.start
  pub chain : Chain (stop big + 1) after hi
  pub same : total (big ∷ after) ≡ header_size + nd.size + total rest
  pub apart : (x : Extent) → Apart x nd → All (Apart x) rest → All (Apart x) (big ∷ after)

pub combine_lem :
    (hi : ℕ) (nd : Extent) (rest : List Extent)
    → hi < word
    → stop nd ≤ hi
    → Chain (stop nd) rest hi
    → (b : Bool) × (big : Extent) × (after : List Extent) × Joined hi nd rest b big after
combine_lem hi nd [] small fits h = (
  false,
  nd,
  [],
  record {
    eq = unfold node_combine in ground arith;
    start = refl;
    chain = omega arith;
    same = omega arith;
    apart = λ x hx hr. (hx, tt);
  },
)
combine_lem hi nd (next ∷ rest) small fits h = elim (Bool-cases (stop nd == next.start)) [
  | inl e ↦ (
    true,
    record nd { size = nd.size + next.size + header_size },
    rest,
    record {
      eq = combine_adjacent nd next rest (omega (arith, Chain-above rest h.1)) (ground arith);
      start = refl;
      chain = ground arith;
      same = omega arith;
      apart = λ x hx hr. (ground arith, hr.1);
    },
  )
  | inr e ↦ (
    false,
    nd,
    next ∷ rest,
    record {
      eq = combine_apart nd next rest (omega arith) (ground arith);
      start = refl;
      chain = ground arith;
      same = refl;
      apart = λ x hx hr. (hx, hr);
    },
  )
]
