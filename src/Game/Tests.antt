-- ===== src/Game/Tests.antt =====
-- The game's theorems on small boards, and two moves.
use nju_os_lab.Prelude.{◌≡◌, refl, none, some, List, [], ◌∷◌}
use nju_os_lab.Game.{
  Board, Press, left, right, down, value_at, next_place, slide_step, slide, slide_all, has_won,
  game_main,
}
use nju_os_lab.Game.Rules.{NoPurple}
use nju_os_lab.Game.Rounds.{Played, game_main-Played, has_won-NoPurple}

abbrev two_blocks : Board
two_blocks = 1 ∷ 0 ∷ 0 ∷ 0 ∷ 1 ∷ 0 ∷ 0 ∷ 0 ∷ 0 ∷ 0 ∷ 0 ∷ 0 ∷ 0 ∷ 0 ∷ 0 ∷ 0 ∷ []

abbrev three_keys : List Press
three_keys =
    record { key = some left; random = 5 }
    ∷ record { key = none; random = 0 }
    ∷ record { key = some down; random = 3 }
    ∷ []

two_blocks-NoPurple : NoPurple two_blocks
unfolding has_won
two_blocks-NoPurple = has_won-NoPurple two_blocks refl

game_main-Played_example : Played three_keys two_blocks (game_main three_keys two_blocks)
game_main-Played_example = game_main-Played three_keys two_blocks refl two_blocks-NoPurple

-- The blocks are visited in the same order for every direction, so a move to the right leaves a gap: the block of 1 stays, since the block of 2 beside it has not moved yet.
gap :
    slide_all 16 0 right (1 ∷ 0 ∷ 0 ∷ 0 ∷ 2 ∷ 0 ∷ 0 ∷ 0 ∷ 0 ∷ 0 ∷ 0 ∷ 0 ∷ 0 ∷ 0 ∷ 0 ∷ 0 ∷ [])
    ≡ some (1 ∷ 0 ∷ 0 ∷ 0 ∷ 0 ∷ 0 ∷ 0 ∷ 0 ∷ 0 ∷ 0 ∷ 0 ∷ 0 ∷ 2 ∷ 0 ∷ 0 ∷ 0 ∷ [])
unfolding slide_all slide slide_step next_place value_at
gap = refl

-- Four blocks of 6 become one of 8.
four_sixes :
    slide_all 16 0 left (6 ∷ 0 ∷ 0 ∷ 0 ∷ 6 ∷ 0 ∷ 0 ∷ 0 ∷ 6 ∷ 0 ∷ 0 ∷ 0 ∷ 6 ∷ 0 ∷ 0 ∷ 0 ∷ [])
    ≡ some (8 ∷ 0 ∷ 0 ∷ 0 ∷ 0 ∷ 0 ∷ 0 ∷ 0 ∷ 0 ∷ 0 ∷ 0 ∷ 0 ∷ 0 ∷ 0 ∷ 0 ∷ 0 ∷ [])
unfolding slide_all slide slide_step next_place value_at
four_sixes = refl
