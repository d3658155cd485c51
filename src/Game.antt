-- ===== src/Game.antt =====
-- amgame/src/game.c: the game on a board of 4 times 4 blocks. 0 is no block.
pub mod Rules
pub mod Mass
pub mod Slide
pub mod Rounds
mod Tests
use nju_os_lab.Prelude.{
  ℕ, zero, suc, ◌+◌, ◌-◌, ◌*◌, ◌/◌, ◌%◌, ◌^◌, Bool, true, false, Option, none, some, List, [], ◌∷◌,
  ◌==◌, ◌&&◌, ◌||◌, not, ltb, leb, if◌then◌else◌, ◌>>=◌, get_elem?, set, replicate,
}

-- `blocks`, row by row: `blocks[x][y]` is at `x * 4 + y`.
abbrev pub Board : Type 0
Board = List ℕ

abbrev pub cell : ℕ → ℕ → ℕ
cell x y = x * 4 + y

unfoldable pub value_at : Board → ℕ → ℕ
value_at [] i = 0
value_at (v ∷ b) zero = v
value_at (v ∷ b) (suc i) = value_at b i

-- In the order of `dx` and `dy`.
pub data Direction : Type 0 where
  left up right down : Direction

-- The next place, or `none` outside of the board.
unfoldable pub next_place : Direction → ℕ → ℕ → Option (ℕ × ℕ)
next_place left x y = if x == 0 then none else some (x - 1, y)
next_place up x y = if y == 0 then none else some (x, y - 1)
next_place right x y = if ltb (x + 1) 4 then some (x + 1, y) else none
next_place down x y = if ltb (y + 1) 4 then some (x, y + 1) else none

-- The two blocks change places.
abbrev pub swapped : Board → ℕ → ℕ → Board
swapped b t l = set (set b t (value_at b l)) l (value_at b t)

abbrev pub merged : Board → ℕ → ℕ → Board
merged b t l = set (set b t ((value_at b t + 1) % 2 ^ 32)) l 0

-- What a round of the loop does to the board, or `none` for `break`.
unfoldable pub slide_step : Board → ℕ → ℕ → Option Board
slide_step b t l =
    if value_at b t == 0
    then some (swapped b t l)
    else if value_at b t == value_at b l
    then some (merged b t l)
    else none

-- The inner loop from the place (lx, ly) on. `none`: the end of the fuel.
unfoldable pub slide : ℕ → Direction → ℕ → ℕ → Board → Option Board
slide zero d lx ly b = none
slide (suc fuel) d lx ly b = elim (next_place d lx ly) [
  | none ↦ some b
  | some (tx, ty) ↦ elim (slide_step b (cell tx ty) (cell lx ly)) [
    | none ↦ some b
    | some b' ↦ slide fuel d tx ty b'
  ]
]

-- The `n` places of the board from `i` on. A block is at most 3 places away from the border.
unfoldable pub slide_all : ℕ → ℕ → Direction → Board → Option Board
slide_all zero i d b = some b
slide_all (suc n) i d b = do
  b' ← if value_at b i == 0 then some b else slide 4 d (i / 4) (i % 4) b
  slide_all n (i + 1) d b'

unfoldable pub count_empty : Board → ℕ
count_empty [] = 0
count_empty (v ∷ b) = (if v == 0 then 1 else 0) + count_empty b

unfoldable pub has_won : Board → Bool
has_won [] = false
has_won (v ∷ b) = leb 7 v || has_won b

-- A new block at the empty place `choice`. `none`: `_halt(1)`.
unfoldable pub add_block : ℕ → Board → Option Board
add_block choice [] = none
add_block choice (v ∷ b) =
    let rest = (do b' ← add_block (if v == 0 then choice - 1 else choice) b; some (v ∷ b')) in
    if (v == 0) && (choice == 0) then some (1 ∷ b) else rest

-- `goRound`, with the number that `rand` returns: the result, `*win` and the board. `none` halts.
pub record Round : Type 0 where
  pub goes_on : Bool
  pub win : Bool
  pub board : Board

unfoldable pub add_or_end : ℕ → Board → Option Round
add_or_end random b =
    let added = (do
      b' ← add_block (random % count_empty b) b
      some (record { goes_on = true; win = has_won b; board = b' })) in
    if count_empty b == 0
    then some (record { goes_on = false; win = has_won b; board = b })
    else added

unfoldable pub go_round : Direction → ℕ → Board → Option Round
go_round d random b = do b' ← slide_all 16 0 d b; add_or_end random b'

unfoldable pub game_start : ℕ → ℕ → Board
game_start r1 r2 = set (replicate 16 0) (cell (r1 % 4) (r2 % 4)) 1

-- A key that was pressed: a direction, or any other key. With it the number that `rand` returns.
pub record Press : Type 0 where
  pub key : Option Direction
  pub random : ℕ

-- How `gameMain` stands after some keys: it has returned, or it waits for the next key.
pub data Play : Type 0 where
  ended : Bool → Board → Play
  running : Board → Play

abbrev pub play_round : Option Direction → ℕ → Board → Option Round
play_round none random b = some (record { goes_on = true; win = false; board = b })
play_round (some d) random b = go_round d random b

-- The tests behind a key, with the rest of the game.
abbrev pub after_round : Round → Option Play → Option Play
after_round r rest =
    if r.win
    then some (ended true r.board)
    else if not r.goes_on
    then some (ended false r.board)
    else rest

unfoldable pub game_main : List Press → Board → Option Play
game_main [] b = some (running b)
game_main (p ∷ ps) b = do r ← play_round p.key p.random b; after_round r (game_main ps r.board)
