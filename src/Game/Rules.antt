-- ===== src/Game/Rules.antt =====
-- amgame/src/game.c: the rules of the game, as relations on boards that say what stands at each place.
use nju_os_lab.Prelude.{
  ℕ, suc, ◌+◌, ◌/◌, ◌%◌, ◌≤◌, ◌<◌, ◌≡◌, ◌≢◌, ◌⊎◌, true, false, none, some, List, [], ◌∷◌, All,
}
use nju_os_lab.Game.{
  Board, cell, value_at, Direction, left, up, right, down, Press, Play, ended, running,
}

-- No place lies on that side of a place, or this one is next to it.
abbrev pub IsBorder : Direction → ℕ → ℕ → Type 0
IsBorder left x y = x ≡ 0
IsBorder up x y = y ≡ 0
IsBorder right x y = x ≡ 3
IsBorder down x y = y ≡ 3

abbrev pub NextTo : Direction → ℕ → ℕ → ℕ → ℕ → Type 0
NextTo left x y tx ty = (tx + 1 ≡ x) × (ty ≡ y)
NextTo up x y tx ty = (tx ≡ x) × (ty + 1 ≡ y)
NextTo right x y tx ty = (tx ≡ x + 1) × (ty ≡ y)
NextTo down x y tx ty = (tx ≡ x) × (ty ≡ y + 1)

-- The block at `l` has left for `t`, where `v` now stands; the other places are as they were.
pub record Moved (b b' : Board) (t l v : ℕ) : Type 0 where
  pub there : value_at b' t ≡ v
  pub left_behind : value_at b' l ≡ 0
  pub others : (j : ℕ) → j ≢ t → j ≢ l → value_at b' j ≡ value_at b j

-- A block slides until it is at the border or in front of another block. It slides into an empty place, and merges with a block of its own colour, to the next colour.
pub data Slides (d : Direction) : ℕ → ℕ → Board → Board → Type 0 where
  at_border : (x y : ℕ) (b : Board) → IsBorder d x y → Slides d x y b b
  in_front :
      (x y tx ty : ℕ) (b : Board)
      → NextTo d x y tx ty
      → value_at b (cell tx ty) ≢ 0
      → value_at b (cell tx ty) ≢ value_at b (cell x y)
      → Slides d x y b b
  into_empty :
      (x y tx ty : ℕ) (b b1 b2 : Board)
      → NextTo d x y tx ty
      → value_at b (cell tx ty) ≡ 0
      → Moved b b1 (cell tx ty) (cell x y) (value_at b (cell x y))
      → Slides d tx ty b1 b2
      → Slides d x y b b2
  into_equal :
      (x y tx ty : ℕ) (b b1 b2 : Board)
      → NextTo d x y tx ty
      → value_at b (cell tx ty) ≡ value_at b (cell x y)
      → Moved b b1 (cell tx ty) (cell x y) (value_at b (cell x y) + 1)
      → Slides d tx ty b1 b2
      → Slides d x y b b2

-- Every block at the `n` places from `i` on slides in its turn.
pub data Sweeps (d : Direction) : ℕ → ℕ → Board → Board → Type 0 where
  swept : (i : ℕ) (b : Board) → Sweeps d i 0 b b
  no_block :
      (i n : ℕ) (b b2 : Board)
      → value_at b i ≡ 0
      → Sweeps d (i + 1) n b b2
      → Sweeps d i (suc n) b b2
  block :
      (i n : ℕ) (b b1 b2 : Board)
      → value_at b i ≢ 0
      → Slides d (i / 4) (i % 4) b b1
      → Sweeps d (i + 1) n b1 b2
      → Sweeps d i (suc n) b b2

-- A red block is put at one empty place.
pub data Adds : Board → Board → Type 0 where
  here : (b : Board) → Adds (0 ∷ b) (1 ∷ b)
  later : (v : ℕ) (b b' : Board) → Adds b b' → Adds (v ∷ b) (v ∷ b')

-- Red is 1, and purple is 7.
abbrev pub HasPurple : Board → Type 0
HasPurple [] = ⊥
HasPurple (v ∷ b) = (7 ≤ v) ⊎ HasPurple b

abbrev pub NoPurple : Board → Type 0
NoPurple b = All (λ v. v < 7) b

abbrev pub IsFull : Board → Type 0
IsFull b = All (λ v. 0 < v) b

-- What a round makes of a board: the blocks slide, and a red block is added if there is a place for it.
abbrev pub Fills : Board → Board → Type 0
Fills b b' = Adds b b' ⊎ (IsFull b × (b' ≡ b))

-- A game under the keys that are pressed. It is won at the first purple block, and lost when no place is left.
pub data Plays : List Press → Board → Play → Type 0 where
  waits : (b : Board) → NoPurple b → Plays [] b (running b)
  other_key :
      (random : ℕ) (ps : List Press) (b : Board) (p : Play)
      → Plays ps b p
      → Plays (record { key = none; random = random } ∷ ps) b p
  wins :
      (d : Direction) (random : ℕ) (ps : List Press) (b b1 b2 : Board)
      → Sweeps d 0 16 b b1
      → Fills b1 b2
      → HasPurple b2
      → Plays (record { key = some d; random = random } ∷ ps) b (ended true b2)
  loses :
      (d : Direction) (random : ℕ) (ps : List Press) (b b1 : Board)
      → Sweeps d 0 16 b b1
      → IsFull b1
      → NoPurple b1
      → Plays (record { key = some d; random = random } ∷ ps) b (ended false b1)
  goes_on_with :
      (d : Direction) (random : ℕ) (ps : List Press) (b b1 b2 : Board) (p : Play)
      → Sweeps d 0 16 b b1
      → Adds b1 b2
      → NoPurple b2
      → Plays ps b2 p
      → Plays (record { key = some d; random = random } ∷ ps) b p
