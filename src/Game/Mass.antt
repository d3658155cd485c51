-- ===== src/Game/Mass.antt =====
-- amgame/src/game.c: a block of value `v` weighs 2 ^ v, so a merge keeps the weight of the board.
use nju_os_lab.Prelude.{
  ℕ, zero, suc, ◌+◌, ◌%◌, ◌^◌, ◌≤◌, ◌<◌, ◌≡◌, ◌≢◌, refl, ap, sym, ◌∙◌, inl, inr, [], ◌∷◌, ltb,
  length, set, arith, Bool-cases, length-set,
}
use native.Mathlib.Nat.{pow-succ', pow-le-pow_right, mod-eq_of_lt}
use nju_os_lab.Game.{Board, value_at, swapped, merged}

abbrev pub weight : ℕ → ℕ
weight zero = 0
weight (suc v) = 2 ^ suc v

abbrev pub mass : Board → ℕ
mass [] = 0
mass (v ∷ b) = weight v + mass b

mass-set :
    (b : Board) (i v : ℕ)
    → i < length b
    → mass (set b i v) + weight (value_at b i) ≡ mass b + weight v
unfolding value_at
mass-set [] i v h = absurd (omega arith)
mass-set (x ∷ b) zero v h = omega arith
mass-set (x ∷ b) (suc i) v h = let ih = mass-set b i v (omega arith) in omega (arith, ih)

pub value_at-set_ne : (b : Board) (i j v : ℕ) → i ≢ j → value_at (set b i v) j ≡ value_at b j
unfolding value_at
value_at-set_ne [] i j v h = refl
value_at-set_ne (x ∷ b) zero zero v h = absurd (h refl)
value_at-set_ne (x ∷ b) zero (suc j) v h = refl
value_at-set_ne (x ∷ b) (suc i) zero v h = refl
value_at-set_ne (x ∷ b) (suc i) (suc j) v h = value_at-set_ne b i j v (λ e. h (omega (arith, e)))

pub value_at-set_self : (b : Board) (i v : ℕ) → i < length b → value_at (set b i v) i ≡ v
unfolding value_at
value_at-set_self [] i v h = absurd (omega arith)
value_at-set_self (x ∷ b) zero v h = refl
value_at-set_self (x ∷ b) (suc i) v h = value_at-set_self b i v (omega arith)

pub weight-le-mass : (b : Board) (i : ℕ) → weight (value_at b i) ≤ mass b
unfolding value_at
weight-le-mass [] i = omega arith
weight-le-mass (x ∷ b) zero = omega arith
weight-le-mass (x ∷ b) (suc i) = let ih = weight-le-mass b i in omega (arith, ih)

-- A light block has a small value.
pub weight_small : (v : ℕ) → weight v < 2048 → v ≤ 10
weight_small zero h = omega arith
weight_small (suc v) h = elim (Bool-cases (ltb v 10)) [
  | inl e ↦ ground (arith, e)
  | inr e ↦
      let above : 11 ≤ suc v = ground (arith, e) in
      let big : 2 ^ 11 ≤ 2 ^ suc v = pow-le-pow_right (omega arith) above in
      absurd (omega (arith, big))
]

weight-add : (v : ℕ) → v ≢ 0 → weight (v + 1) ≡ weight v + weight v
weight-add zero h = absurd (h refl)
weight-add (suc v) h =
    let e : suc v + 1 ≡ suc (suc v) = omega arith in
    rw e (let p = pow-succ' 2 (suc v) in omega (arith, p))

-- The next colour of a block on a light board does not wrap around.
pub next_value :
    (b : Board) (t : ℕ) → mass b ≤ 1024 → (value_at b t + 1) % 2 ^ 32 ≡ value_at b t + 1
next_value b t light =
    let heavy = weight-le-mass b t in
    let small = weight_small (value_at b t) (omega (arith, heavy)) in
    mod-eq_of_lt (omega (arith, small))

-- A step of a block that is there keeps the size and the weight of the board, and the block is at its new place.
pub record Kept (b b' : Board) (t : ℕ) : Type 0 where
  pub size : length b' ≡ length b
  pub kept : mass b' ≡ mass b
  pub there : value_at b' t ≢ 0

module _ (b : Board) (t l : ℕ) (ht : t < length b) (hl : l < length b) (ne : t ≢ l)
    (block : value_at b l ≢ 0) where
  two_sets :
      (v w : ℕ)
      → mass (set (set b t v) l w) + weight (value_at b t) + weight (value_at b l)
        ≡ mass b + weight v + weight w
  two_sets v w =
      let first = mass-set b t v ht in
      let size = length-set b t v in
      let second = mass-set (set b t v) l w (omega (arith, size)) in
      let same = ap weight (value_at-set_ne b t l v ne) in omega (arith, first, second, same)

  moved_value : (v w : ℕ) → value_at (set (set b t v) l w) t ≡ v
  moved_value v w = value_at-set_ne (set b t v) l t w (λ e. ne (sym e)) ∙ value_at-set_self b t v ht

  two_sizes : (v w : ℕ) → length (set (set b t v) l w) ≡ length b
  two_sizes v w = length-set (set b t v) l w ∙ length-set b t v

  pub swapped-Kept : Kept b (swapped b t l) t
  swapped-Kept = record {
    size = two_sizes (value_at b l) (value_at b t);
    kept = let m = two_sets (value_at b l) (value_at b t) in omega (arith, m);
    there = let e = moved_value (value_at b l) (value_at b t) in λ z. block (omega (arith, e, z));
  }

  pub merged-Kept : value_at b t ≡ value_at b l → mass b ≤ 1024 → Kept b (merged b t l) t
  merged-Kept same light =
      let v = value_at b t in
      let next : (v + 1) % 2 ^ 32 ≡ v + 1 = next_value b t light in
      let m = two_sets ((v + 1) % 2 ^ 32) 0 in
      let twice = ap weight next ∙ weight-add v (λ z. block (omega (arith, same, z))) in
      let other = ap weight same in
      record {
        size = two_sizes ((v + 1) % 2 ^ 32) 0;
        kept = omega (arith, m, twice, other);
        there =
            let e = moved_value ((v + 1) % 2 ^ 32) 0 ∙ next in λ z. absurd (omega (arith, e, z));
      }
