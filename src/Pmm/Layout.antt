-- ===== src/Pmm/Layout.antt =====
-- kernel/src/pmm.c: the layout of the heap that `alloc` and `free` keep.
use nju_os_lab.Prelude.{
  ℕ, suc, ◌+◌, ◌-◌, ◌≤◌, ◌<◌, ◌≡◌, ◌⊎◌, List, [], ◌∷◌, ◌++◌, All, All-map, arith,
}
use nju_os_lab.Pmm.{Extent, Pmm, word, header_size}

-- The address behind an extent.
abbrev pub stop : Extent → ℕ
stop x = x.start + header_size + x.size

abbrev pub Apart : Extent → Extent → Type 0
Apart x y = (stop x ≤ y.start) ⊎ (stop y ≤ x.start)

-- Free nodes in address order between two bounds, no two of them adjacent.
abbrev pub Chain : ℕ → List Extent → ℕ → Type 0
Chain lo [] hi = lo ≤ suc hi
Chain lo (nd ∷ rest) hi = (lo ≤ nd.start) × Chain (stop nd + 1) rest hi

abbrev pub AllApart : List Extent → Type 0
AllApart [] = Unit
AllApart (x ∷ xs) = All (Apart x) xs × AllApart xs

abbrev pub total : List Extent → ℕ
total [] = 0
total (x ∷ xs) = header_size + x.size + total xs

abbrev pub Inside : ℕ → ℕ → Extent → Type 0
Inside lo hi x = (lo ≤ x.start) × (stop x ≤ hi)

-- Free nodes and blocks lie in the heap, apart from one another, and fill it.
pub record IsValid (p : Pmm) : Type 0 where
  pub low : 0 < p.pm_start
  pub small : p.pm_end < word
  pub chain : Chain p.pm_start p.free_list p.pm_end
  pub inside : All (Inside p.pm_start p.pm_end) p.blocks
  pub apart : All (λ b. All (Apart b) p.free_list) p.blocks
  pub disjoint : AllApart p.blocks
  pub full : total p.free_list + total p.blocks ≡ p.pm_end - p.pm_start

pub total-append : (xs ys : List Extent) → total (xs ++ ys) ≡ total xs + total ys
total-append [] ys = omega arith
total-append (x ∷ xs) ys = omega (arith, total-append xs ys)

-- A chain around one of its nodes: everything before it ends below it, with a gap.
pub Chain-split :
    (lo hi : ℕ) (b : List Extent) (nd : Extent) (a : List Extent)
    → Chain lo (b ++ nd ∷ a) hi
    → All (λ x. (lo ≤ x.start) × (stop x < nd.start)) b × (lo ≤ nd.start) × Chain (stop nd + 1) a hi
Chain-split lo hi [] nd a h = (tt, h.0, h.1)
Chain-split lo hi (x ∷ b) nd a h =
    let (hb, hn, ha) = Chain-split (stop x + 1) hi b nd a h.1 in
    (((h.0, omega arith), All-map _ b (λ y q. omega arith) hb), omega arith, ha)

-- What follows `lo` in a chain starts at or behind it, and ends inside.
pub Chain-above :
    (a : List Extent) {lo hi : ℕ}
    → Chain lo a hi
    → All (λ x. (lo ≤ x.start) × (stop x ≤ hi)) a × (lo ≤ suc hi)
Chain-above [] h = (tt, h)
Chain-above (x ∷ a) h =
    let (ha, hi) = Chain-above a h.1 in
    ((omega arith, All-map _ a (λ y q. omega arith) ha), omega arith)

-- The part before a node stays when what follows it changes.
pub Chain-replace :
    (lo hi : ℕ) (b : List Extent) (nd new : Extent) (a c : List Extent)
    → Chain lo (b ++ nd ∷ a) hi
    → nd.start ≤ new.start
    → Chain (stop new + 1) c hi
    → Chain lo (b ++ new ∷ c) hi
Chain-replace lo hi [] nd new a c h le hc = (omega arith, hc)
Chain-replace lo hi (x ∷ b) nd new a c h le hc =
    (h.0, Chain-replace (stop x + 1) hi b nd new a c h.1 le hc)
