-- ===== src/Game/Rounds.antt =====
-- amgame/src/game.c: a round, and a game.
use nju_os_lab.Prelude.{
  ℕ, zero, suc, ◌+◌, ◌*◌, ◌%◌, ◌^◌, ◌≤◌, ◌<◌, ◌≡◌, refl, ◌⊎◌, inl, inr, ◌∙◌, ap, sym, true, false,
  Option, none, some, List, [], ◌∷◌, ◌==◌, ◌||◌, leb, length, All, arith, Bool-cases, ==→≡,
}
use native.Mathlib.Nat.{mod-lt, pow-le-pow_right}
use nju_os_lab.Game.{
  Board, Direction, count_empty, has_won, add_block, Round, add_or_end, go_round, Press, Play,
  running, ended, after_round, game_main,
}
use nju_os_lab.Game.Rules.{
  Sweeps, Adds, here, later, HasPurple, NoPurple, IsFull, Fills, Plays, waits, other_key, wins,
  loses, goes_on_with,
}
use nju_os_lab.Game.Mass.{weight, mass, weight_small}
use nju_os_lab.Game.Slide.{slide_all-Slid}

add_block_lem :
    (b : Board) (choice : ℕ)
    → choice < count_empty b
    → (b' : Board) × (add_block choice b ≡ some b')
      × (length b' ≡ length b)
      × (mass b' ≡ mass b + 2)
      × (has_won b' ≡ has_won b)
      × Adds b b'
unfolding add_block count_empty has_won
add_block_lem [] choice h = absurd (omega arith)
add_block_lem (zero ∷ b) zero h = (1 ∷ b, refl, refl, omega arith, refl, here b)
add_block_lem (zero ∷ b) (suc choice) h =
    let (b', run, size, more, won, added) = add_block_lem b choice (ground arith) in
    (0 ∷ b', ground (arith, run), ap suc size, omega (arith, more), won, later 0 b b' added)
add_block_lem (suc v ∷ b) choice h =
    let (b', run, size, more, won, added) = add_block_lem b choice (ground arith) in
    (
      suc v ∷ b',
      ground (arith, run),
      ap suc size,
      omega (arith, more),
      ap (λ w. leb 7 (suc v) || w) won,
      later (suc v) b b' added,
    )

has_won-HasPurple : (b : Board) → has_won b ≡ true → HasPurple b
unfolding has_won
has_won-HasPurple [] h = absurd (ground (arith, h))
has_won-HasPurple (v ∷ b) h = elim (Bool-cases (leb 7 v)) [
  | inl e ↦ inl (ground (arith, e))
  | inr e ↦ inr (has_won-HasPurple b (ground (arith, h, e)))
]

pub has_won-NoPurple : (b : Board) → has_won b ≡ false → NoPurple b
unfolding has_won
has_won-NoPurple [] h = tt
has_won-NoPurple (v ∷ b) h = (ground (arith, h), has_won-NoPurple b (ground (arith, h)))

NoPurple-has_won : (b : Board) → NoPurple b → has_won b ≡ false
unfolding has_won
NoPurple-has_won [] h = refl
NoPurple-has_won (v ∷ b) (low, h) = let ih = NoPurple-has_won b h in ground (arith, ih, low)

count_empty-IsFull : (b : Board) → count_empty b ≡ 0 → IsFull b
unfolding count_empty
count_empty-IsFull [] h = tt
count_empty-IsFull (zero ∷ b) h = absurd (omega (arith, h))
count_empty-IsFull (suc v ∷ b) h = (omega arith, count_empty-IsFull b (ground (arith, h)))

-- What a round does after the moves: it goes on with one block more, or nothing is free.
abbrev pub Continues : Board → Round → Type 0
Continues b1 r =
    ((r.goes_on ≡ true) × Adds b1 r.board) ⊎ ((r.goes_on ≡ false) × IsFull b1 × (r.board ≡ b1))

-- What holds of every round that is played.
record FairRound (d : Direction) (b : Board) (r : Round) : Type 0 where
  size : length r.board ≡ 16
  light : mass r.board ≤ mass b + 2
  win_shown : r.win ≡ has_won r.board
  moved : Board
  sweep : Sweeps d 0 16 b moved
  added : Continues moved r

go_round-FairRound :
    (d : Direction) (random : ℕ) (b : Board)
    → length b ≡ 16
    → mass b ≤ 1024
    → (r : Round) × (go_round d random b ≡ some r) × FairRound d b r
unfolding go_round add_or_end
go_round-FairRound d random b size light =
    let (b1, run, size', mass', sweep) = slide_all-Slid 16 0 d b (omega arith) size light in
    elim (Bool-cases (count_empty b1 == 0)) [
      | inl e ↦ (
        record { goes_on = false; win = has_won b1; board = b1 },
        rw run (rw e refl),
        record {
          size = size' ∙ size;
          light = omega (arith, mass');
          win_shown = refl;
          moved = b1;
          sweep = sweep;
          added = inr (refl, count_empty-IsFull b1 (==→≡ (count_empty b1) 0 e), refl);
        },
      )
      | inr e ↦
          let (b2, run2, size2, more, won, adds) =
            add_block_lem b1 (random % count_empty b1) (mod-lt random (ground (arith, e))) in
          (
            record { goes_on = true; win = has_won b1; board = b2 },
            rw run (rw (e, run2) refl),
            record {
              size = size2 ∙ size' ∙ size;
              light = omega (arith, more, mass');
              win_shown = sym won;
              moved = b1;
              sweep = sweep;
              added = inl (refl, adds);
            },
          )
    ]

light_board : (b : Board) → has_won b ≡ false → mass b ≤ length b * 64
unfolding has_won
light_board [] h = omega arith
light_board (zero ∷ b) h = let ih = light_board b h in omega (arith, ih)
light_board (suc v ∷ b) h =
    let below : suc v ≤ 6 = ground (arith, h) in
    let rest : has_won b ≡ false = ground (arith, h) in
    let ih = light_board b rest in
    let w : weight (suc v) ≤ 2 ^ 6 = pow-le-pow_right (omega arith) below in omega (arith, ih, w)

small_blocks : (b : Board) → mass b < 2048 → All (λ v. v ≤ 10) b
small_blocks [] h = tt
small_blocks (v ∷ b) h = (weight_small v (omega arith), small_blocks b (omega arith))

abbrev pub board_of : Play → Board
board_of (running b) = b
board_of (ended w b) = b

-- How a game from the board `b` under the keys `ps` stands.
abbrev pub Played : List Press → Board → Option Play → Type 0
Played ps b r =
    (p : Play) × (r ≡ some p)
    × Plays ps b p
    × (length (board_of p) ≡ 16)
    × All (λ v. v ≤ 10) (board_of p)

Continues-Fills : (b1 : Board) (r : Round) → Continues b1 r → Fills b1 r.board
Continues-Fills b1 r (inl (on, adds)) = inl adds
Continues-Fills b1 r (inr (off, full, same)) = inr (full, same)

after_round-Played :
    (d : Direction) (random : ℕ) (ps : List Press) (b : Board) (r : Round) (rest : Option Play)
    → FairRound d b r
    → mass r.board < 2048
    → (has_won r.board ≡ false → Played ps r.board rest)
    → Played (record { key = some d; random = random } ∷ ps) b (after_round r rest)
after_round-Played d random ps b r rest f light next = elim (Bool-cases r.win) [
  | inl w ↦
      let purple = has_won-HasPurple r.board (sym f.win_shown ∙ w) in
      rw w (
        ended true r.board,
        refl,
        wins d random ps b f.moved r.board f.sweep (Continues-Fills f.moved r f.added) purple,
        f.size,
        small_blocks r.board light,
      )
  | inr w ↦
      let none_yet = has_won-NoPurple r.board (sym f.win_shown ∙ w) in
      elim f.added [
        | inl (on, adds) ↦
            let (p, run, plays, size, small) = next (sym f.win_shown ∙ w) in
            rw (w, on)
              (
                p,
                run,
                goes_on_with d random ps b f.moved r.board p f.sweep adds none_yet plays,
                size,
                small,
              )
        | inr (off, full, same) ↦
            rw (w, off)
              (
                ended false r.board,
                refl,
                rw same (loses d random ps b f.moved f.sweep full (rw same at none_yet)),
                f.size,
                small_blocks r.board light,
              )
      ]
]

key_pressed :
    (key : Option Direction) (random : ℕ) (ps : List Press) (b : Board)
    → length b ≡ 16
    → NoPurple b
    → ((b' : Board) → length b' ≡ 16 → NoPurple b' → Played ps b' (game_main ps b'))
    → Played
        (record { key = key; random = random } ∷ ps)
        b
        (game_main (record { key = key; random = random } ∷ ps) b)
unfolding game_main
key_pressed none random ps b size h next =
    let (q, run, plays, size', small) = next b size h in
    (q, run, other_key random ps b q plays, size', small)
key_pressed (some d) random ps b size h next =
    let light = light_board b (NoPurple-has_won b h) in
    let few : mass b ≤ 1024 = omega (arith, light, ap (λ n. n * 64) size) in
    let (r, run, f) = go_round-FairRound d random b size few in
    let more = f.light in
    rw run (
      after_round-Played d random ps b r (game_main ps r.board) f (omega (arith, more, few))
        (λ h'. next r.board f.size (has_won-NoPurple r.board h')))

-- A game from a board of 16 blocks below 7, for all keys and all results of `rand`. No round halts, and the game is played by rules that are stated apart from the loops:
-- at every direction each block slides in its turn until it is at the border or in front of another one, two blocks of a colour make one of the next, a red block is added at an empty place,
-- the game is won at the first purple block (7) and lost when no place is left. No block is ever more than 10, so it is an index of `colors`.
pub game_main-Played :
    (ps : List Press) (b : Board) → length b ≡ 16 → NoPurple b → Played ps b (game_main ps b)
unfolding game_main
game_main-Played [] b size h =
    let light = light_board b (NoPurple-has_won b h) in
    (running b, refl, waits b h, size, small_blocks b (omega (arith, light, ap (λ n. n * 64) size)))
game_main-Played (p ∷ ps) b size h = key_pressed p.key p.random ps b size h (game_main-Played ps)
