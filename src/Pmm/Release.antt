-- ===== src/Pmm/Release.antt =====
-- kernel/src/pmm.c: `free` as a whole, and what it does to the heap.
use nju_os_lab.Prelude.{
  ◌>>=◌, ℕ, ◌+◌, ◌-◌, ◌<◌, ◌≡◌, refl, List, [], ◌∷◌, ◌++◌, ◌%◌, All, arith, some, none, ap,
  All-append, All-split, All-map, false, ◌≢◌, ◌==◌,
}
use nju_os_lab.Pmm.{Extent, Pmm, word, header_size, insert_node, block_at, free}
use nju_os_lab.Pmm.Layout.{Apart, AllApart, total, Inside, IsValid, total-append}
use nju_os_lab.Pmm.Insert.{Inserted, insert_lem}

pub block_at-here :
    (bk : Extent) (b a : List Extent)
    → All (λ x. x.start ≢ bk.start) b
    → block_at bk.start (b ++ bk ∷ a) ≡ some (bk, b ++ a)
unfolding block_at
block_at-here bk [] a h = ground arith
block_at-here bk (x ∷ b) a h = ground (arith, block_at-here bk b a h.1)

block_at-none : (pos : ℕ) (l : List Extent) → All (λ x. x.start ≢ pos) l → block_at pos l ≡ none
unfolding block_at
block_at-none pos [] h = refl
block_at-none pos (x ∷ l) h = ground (arith, block_at-none pos l h.1)

AllApart-split :
    (bk : Extent) (b a : List Extent)
    → AllApart (b ++ bk ∷ a)
    → All (Apart bk) b × All (Apart bk) a × AllApart (b ++ a)
AllApart-split bk [] a h = (tt, h.0, h.1)
AllApart-split bk (x ∷ b) a h =
    let (hb, ha, hr) = AllApart-split bk b a h.1 in
    let (xb, xr) = All-split (Apart x) b (bk ∷ a) h.0 in
    ((omega arith, hb), ha, (All-append (Apart x) b a xb xr.1, hr))

-- `free` of a pointer that `alloc` can have returned, by the address of the header.
pub free-header :
    (p : Pmm) (s : ℕ)
    → s + header_size < word
    → free (s + header_size) p ≡ (do
      (nd, rest) ← block_at s p.blocks
      list ← insert_node nd p.free_list
      some (record p { free_list = list; blocks = rest }))
unfolding free
free-header p s small =
    let back : (s + header_size + word - header_size) % word ≡ s = omega arith in
    let nonzero : (s + header_size == 0) ≡ false = ground arith in rw (nonzero, back)

-- One of the blocks of a valid heap, among the others.
module _ (p : Pmm) (valid : IsValid p) (bk : Extent) (b a : List Extent)
    (at : p.blocks ≡ b ++ (bk ∷ a)) where
  split : All (Apart bk) b × All (Apart bk) a × AllApart (b ++ a)
  split = AllApart-split bk b a (rw at at (valid.disjoint))

  bk-Inside : Inside p.pm_start p.pm_end bk
  bk-Inside = (All-split (Inside p.pm_start p.pm_end) b (bk ∷ a) (rw at at (valid.inside))).1.0

  bk-Apart : All (Apart bk) p.free_list
  bk-Apart = (All-split (λ x. All (Apart x) p.free_list) b (bk ∷ a) (rw at at (valid.apart))).1.0

  others {κ} : (P : Extent → Type κ) → All P p.blocks → All P (b ++ a)
  others P h = let (hb, hr) = All-split P b (bk ∷ a) (rw at at h) in All-append P b a hb hr.1

  bk_found : block_at bk.start p.blocks ≡ some (bk, b ++ a)
  bk_found = rw at (block_at-here bk b a (All-map _ b (λ x h. omega arith) split.0))

  joined : (j : List Extent) × Inserted p.pm_start p.pm_end bk p.free_list j
  joined = insert_lem p.pm_start p.pm_end bk p.free_list valid.small bk-Inside valid.chain bk-Apart

  released : Pmm
  released = record p { free_list = joined.0; blocks = b ++ a }

  others-Apart : All (λ x. All (Apart x) joined.0) (b ++ a)
  others-Apart =
      All-append (λ x. All (Apart x) joined.0) b a
        (each b split.0
          (All-split (λ x. All (Apart x) p.free_list) b (bk ∷ a) (rw at at (valid.apart))).0)
        (each a split.1
          (All-split (λ x. All (Apart x) p.free_list) b (bk ∷ a) (rw at at (valid.apart))).1.1)
    where
      each :
          (l : List Extent)
          → All (Apart bk) l
          → All (λ x. All (Apart x) p.free_list) l
          → All (λ x. All (Apart x) joined.0) l
      each [] h k = tt
      each (x ∷ l) h k = (joined.1.apart x (omega arith) k.0, each l h.1 k.1)

  released-total : total (b ++ a) + (header_size + bk.size) ≡ total p.blocks
  released-total = rw at (omega (arith, total-append b (bk ∷ a), total-append b a))

  released-IsValid : IsValid released
  unfolding released
  released-IsValid = record {
    low = valid.low;
    small = valid.small;
    chain = joined.1.chain;
    inside = others (Inside p.pm_start p.pm_end) valid.inside;
    apart = others-Apart;
    disjoint = split.2;
    full = omega (arith, joined.1.same, released-total, valid.full);
  }

  free-eq : free (bk.start + header_size) p ≡ some released
  unfolding released
  free-eq =
      rw (free-header p bk.start (omega (arith, bk-Inside, valid.small)), bk_found, joined.1.eq)

-- `free` of the address behind the header of any block of a valid heap does not halt, keeps the
-- heap valid, and takes exactly that block out; the contents of memory stay.
pub free_lem :
    (p : Pmm) (bk : Extent) (b a : List Extent)
    → IsValid p
    → p.blocks ≡ b ++ (bk ∷ a)
    → (q : Pmm) × (free (bk.start + header_size) p ≡ some q)
      × IsValid q
      × (q.blocks ≡ b ++ a)
      × (q.bytes ≡ p.bytes)
unfolding released
free_lem p bk b a valid at = (
  released p valid bk b a at,
  free-eq p valid bk b a at,
  released-IsValid p valid bk b a at,
  refl,
  refl,
)

-- On a valid heap, freeing the same block again, at once, halts the machine: its header is no longer a block's.
pub free-free :
    (p : Pmm) (bk : Extent) (b a : List Extent) (q : Pmm)
    → IsValid p
    → p.blocks ≡ b ++ (bk ∷ a)
    → free (bk.start + header_size) p ≡ some q
    → free (bk.start + header_size) q ≡ none
unfolding released
free-free p bk b a q valid at e =
    let sp = split p valid bk b a at in
    let gone =
      All-append (λ x. x.start ≢ bk.start) b a (All-map _ b (λ x h. omega arith) sp.0)
        (All-map _ a (λ x h. omega arith) sp.1) in
    let same : q ≡ released p valid bk b a at = cc (free-eq p valid bk b a at) in
    rw (
      free-header q bk.start (omega (arith, bk-Inside p valid bk b a at, valid.small)),
      ap (λ r. r.blocks) same,
      block_at-none bk.start (b ++ a) gone,
    )
