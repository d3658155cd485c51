-- ===== src/Game/Slide.antt =====
-- amgame/src/game.c: a block slides to its place.
use nju_os_lab.Prelude.{
  ℕ, zero, suc, ◌+◌, ◌-◌, ◌/◌, ◌%◌, ◌≤◌, ◌<◌, ◌≡◌, ◌≢◌, refl, inl, inr, ◌∙◌, ap, sym, ◌⊎◌, ◌^◌, set,
  length-set, Option, none, some, ◌==◌, ltb, length, arith, Bool-cases, Option-cases, ==→≡,
}
use nju_os_lab.Game.{
  Board, cell, value_at, Direction, left, up, right, down, next_place, slide_step, slide, slide_all,
}
use nju_os_lab.Game.Mass.{
  mass, Kept, swapped-Kept, merged-Kept, next_value, value_at-set_ne, value_at-set_self,
}
use nju_os_lab.Game.Rules.{
  IsBorder, NextTo, Moved, Slides, at_border, in_front, into_empty, into_equal, Sweeps, swept,
  no_block, block,
}

-- The places from here to the border.
abbrev pub distance : Direction → ℕ → ℕ → ℕ
distance left x y = x
distance up x y = y
distance right x y = 3 - x
distance down x y = 3 - y

-- What the next place is: none at the border, or a neighbour, which is nearer to it.
abbrev NextIs : Direction → ℕ → ℕ → Option (ℕ × ℕ) → Type 0
NextIs d x y none = IsBorder d x y
NextIs d x y (some (tx, ty)) =
    (tx < 4)
    × (ty < 4)
    × (cell tx ty ≢ cell x y)
    × (distance d tx ty < distance d x y)
    × NextTo d x y tx ty

next_place-NextIs : (d : Direction) (x y : ℕ) → x < 4 → y < 4 → NextIs d x y (next_place d x y)
unfolding next_place
next_place-NextIs left x y hx hy = elim (Bool-cases (x == 0)) [
  | inl e ↦ rw e (ground (arith, e))
  | inr e ↦ rw e (ground (arith, e))
]
next_place-NextIs up x y hx hy = elim (Bool-cases (y == 0)) [
  | inl e ↦ rw e (ground (arith, e))
  | inr e ↦ rw e (ground (arith, e))
]
next_place-NextIs right x y hx hy = elim (Bool-cases (ltb (x + 1) 4)) [
  | inl e ↦ rw e (ground (arith, e))
  | inr e ↦ rw e (ground (arith, e))
]
next_place-NextIs down x y hx hy = elim (Bool-cases (ltb (y + 1) 4)) [
  | inl e ↦ rw e (ground (arith, e))
  | inr e ↦ rw e (ground (arith, e))
]

-- What a round does at two places: the block goes into an empty place, or merges with its like.
abbrev pub Shifted : Board → Board → ℕ → ℕ → Type 0
Shifted b b' t l =
    ((value_at b t ≡ 0) × Moved b b' t l (value_at b l))
    ⊎ ((value_at b t ≡ value_at b l) × Moved b b' t l (value_at b l + 1))

two_sets-Moved :
    (b : Board) (t l v w u : ℕ)
    → t < length b
    → l < length b
    → t ≢ l
    → v ≡ u
    → w ≡ 0
    → Moved b (set (set b t v) l w) t l u
two_sets-Moved b t l v w u ht hl ne ev ew = record {
  there = value_at-set_ne (set b t v) l t w (λ e. ne (sym e)) ∙ value_at-set_self b t v ht ∙ ev;
  left_behind =
      let size = length-set b t v in value_at-set_self (set b t v) l w (omega (arith, size)) ∙ ew;
  others = λ j nt nl.
      value_at-set_ne (set b t v) l j w (λ e. nl (sym e))
      ∙ value_at-set_ne b t j v (λ e. nt (sym e));
}

abbrev StepIs : Board → ℕ → ℕ → Option Board → Type 0
StepIs b t l none = (value_at b t ≢ 0) × (value_at b t ≢ value_at b l)
StepIs b t l (some b') = Kept b b' t × Shifted b b' t l

slide_step-StepIs :
    (b : Board) (t l : ℕ)
    → t < length b
    → l < length b
    → t ≢ l
    → value_at b l ≢ 0
    → mass b ≤ 1024
    → StepIs b t l (slide_step b t l)
unfolding slide_step
slide_step-StepIs b t l ht hl ne there light = elim (Bool-cases (value_at b t == 0)) [
  | inl e ↦
      let z = ==→≡ (value_at b t) 0 e in
      rw e (
        swapped-Kept b t l ht hl ne there,
        inl (z, two_sets-Moved b t l (value_at b l) (value_at b t) (value_at b l) ht hl ne refl z),
      )
  | inr e ↦ elim (Bool-cases (value_at b t == value_at b l)) [
    | inl s ↦
        let same = ==→≡ (value_at b t) (value_at b l) s in
        rw (e, s)
          (
            merged-Kept b t l ht hl ne there same light,
            inr (
              same,
              two_sets-Moved b t l ((value_at b t + 1) % 2 ^ 32) 0 (value_at b l + 1) ht hl ne
                  (next_value b t light ∙ ap (λ v. v + 1) same) refl,
            ),
          )
    | inr s ↦ rw (e, s) ((λ z. ground (arith, e, z)), (λ z. ground (arith, s, z)))
  ]
]

Shifted-Slides :
    (d : Direction) (x y tx ty : ℕ) (b b1 b2 : Board)
    → NextTo d x y tx ty
    → Shifted b b1 (cell tx ty) (cell x y)
    → Slides d tx ty b1 b2
    → Slides d x y b b2
Shifted-Slides d x y tx ty b b1 b2 near (inl (z, m)) rest =
    into_empty x y tx ty b b1 b2 near z m rest
Shifted-Slides d x y tx ty b b1 b2 near (inr (same, m)) rest =
    into_equal x y tx ty b b1 b2 near same m rest

-- The board after blocks have moved by the rule `Rule`.
abbrev pub Slid : (Board → Type 0) → Board → Option Board → Type 0
Slid Rule b r = (b' : Board) × (r ≡ some b') × (length b' ≡ length b) × (mass b' ≡ mass b) × Rule b'

pub slide-Slid :
    (fuel : ℕ) (d : Direction) (x y : ℕ) (b : Board)
    → distance d x y < fuel
    → x < 4
    → y < 4
    → length b ≡ 16
    → mass b ≤ 1024
    → value_at b (cell x y) ≢ 0
    → Slid (Slides d x y b) b (slide fuel d x y b)
unfolding slide
slide-Slid zero d x y b far hx hy size light there = absurd (omega arith)
slide-Slid (suc fuel) d x y b far hx hy size light there = elim (Option-cases (next_place d x y)) [
  | inl e ↦
      let edge = rw e at (next_place-NextIs d x y hx hy) in
      rw (slide, e) (b, refl, refl, refl, at_border x y b edge)
  | inr ((tx, ty), e) ↦
      let (htx, hty, ne, nearer, near) = rw e at (next_place-NextIs d x y hx hy) in
      let step =
        slide_step-StepIs b (cell tx ty) (cell x y) (omega (arith, size)) (omega (arith, size)) ne
          there light in
      elim (Option-cases (slide_step b (cell tx ty) (cell x y))) [
        | inl s ↦
            let (full, other) = rw s at step in
            rw (slide, e, s) (b, refl, refl, refl, in_front x y tx ty b near full other)
        | inr (b1, s) ↦
            let (k, shift) = rw s at step in
            let n = k.size in
            let m = k.kept in
            let (b2, run, size', mass', rest) =
              slide-Slid fuel d tx ty b1 (omega (arith, nearer)) htx hty (n ∙ size)
                (omega (arith, m)) k.there in
            rw (slide, e, s)
              (b2, run, size' ∙ n, mass' ∙ m, Shifted-Slides d x y tx ty b b1 b2 near shift rest)
      ]
]

pub slide_all-Slid :
    (n i : ℕ) (d : Direction) (b : Board)
    → i + n ≤ 16
    → length b ≡ 16
    → mass b ≤ 1024
    → Slid (Sweeps d i n b) b (slide_all n i d b)
unfolding slide_all
slide_all-Slid zero i d b inside size light = (b, refl, refl, refl, swept i b)
slide_all-Slid (suc n) i d b inside size light = elim (Bool-cases (value_at b i == 0)) [
  | inl e ↦
      let (b2, run, size2, mass2, rest) = slide_all-Slid n (i + 1) d b (omega arith) size light in
      rw e (b2, run, size2, mass2, no_block i n b b2 (==→≡ (value_at b i) 0 e) rest)
  | inr e ↦
      let at : cell (i / 4) (i % 4) ≡ i = omega arith in
      let (b1, run, size', mass', slid) =
        slide-Slid 4 d (i / 4) (i % 4) b (far d) (omega arith) (omega arith) size light
          (rw at (ground (arith, e))) in
      let (b2, run', size2, mass2, rest) =
        slide_all-Slid n (i + 1) d b1 (omega arith) (size' ∙ size) (omega (arith, mass')) in
      rw (e, run)
        (
          b2,
          run',
          size2 ∙ size',
          mass2 ∙ mass',
          block i n b b1 b2 (λ z. ground (arith, e, z)) slid rest,
        )
]
  where
    far : (d : Direction) → distance d (i / 4) (i % 4) < 4
    far left = omega arith
    far up = omega arith
    far right = omega arith
    far down = omega arith
