-- ===== src/Tty/Ring.antt =====
-- kernel/src/devices/tty/tty.c: the ring holds a sequence of bytes.
use nju_os_lab.Prelude.{
  take, ltb, Bool-cases, ℕ, zero, suc, ◌+◌, ◌-◌, ◌%◌, ◌≤◌, ◌<◌, ◌≡◌, ◌≢◌, refl, ◌⊎◌, inl, inr, true,
  false, none, some, [], ◌∷◌, ◌++◌, ◌==◌, ◌&&◌, not, if◌then◌else◌, length, length-append, arith,
  ap, sym, subst, ◌∙◌,
}
use nju_os_lab.Klib.Strings.{Bytes}
use nju_os_lab.Klib.Strings.Search.{Lacks}
use nju_os_lab.Tty.{TtyQueue, put, wrapped, cook_buf_size, tty_enqueue, tty_pop_back, read_loop}

-- The bytes stand in the ring from place `i` on.
abbrev pub At : (ℕ → ℕ) → ℕ → Bytes → Type 0
At buf i [] = Unit {0}
At buf i (x ∷ xs) = (buf (i % 1024) ≡ x) × At buf (i + 1) xs

At-append :
    (buf : ℕ → ℕ) (i c : ℕ) (xs : Bytes)
    → At buf i xs
    → buf ((i + length xs) % 1024) ≡ c
    → At buf i (xs ++ c ∷ [])
At-append buf i c [] h e = (let at : i + 0 ≡ i = omega arith in rw (sym at) e, tt)
At-append buf i c (x ∷ xs) h e =
    let at : i + 1 + length xs ≡ i + suc (length xs) = omega arith in
    (h.0, At-append buf (i + 1) c xs h.1 (rw at e))

At-last :
    (buf : ℕ → ℕ) (i c : ℕ) (xs : Bytes)
    → At buf i (xs ++ c ∷ [])
    → At buf i xs × (buf ((i + length xs) % 1024) ≡ c)
At-last buf i c [] h = (tt, let at : i + 0 ≡ i = omega arith in rw at h.0)
At-last buf i c (x ∷ xs) h =
    let at : i + 1 + length xs ≡ i + suc (length xs) = omega arith in
    let (front, last) = At-last buf (i + 1) c xs h.1 in ((h.0, front), rw (sym at) last)

At-same : (buf : ℕ → ℕ) (i j : ℕ) (xs : Bytes) → i % 1024 ≡ j % 1024 → At buf i xs → At buf j xs
At-same buf i j [] e h = tt
At-same buf i j (x ∷ xs) e h = (rw (sym e) h.0, At-same buf (i + 1) (j + 1) xs (omega arith) h.1)

-- A write at a place behind them.
At-put :
    (buf : ℕ → ℕ) (i d p v : ℕ) (xs : Bytes)
    → length xs ≤ d
    → d < 1024
    → p ≡ (i + d) % 1024
    → At buf i xs
    → At (put buf p v) i xs
At-put buf i d p v [] le small e h = tt
At-put buf i zero p v (x ∷ xs) le small e h = absurd (omega arith)
At-put buf i (suc d) p v (x ∷ xs) le small e h =
    (ground (arith, h.0), At-put buf (i + 1) d p v xs (omega arith) (omega arith) (omega arith) h.1)

-- The bytes from `front` to `rear`, with a NUL behind them.
pub record Window (q : TtyQueue) (xs : Bytes) : Type 0 where
  pub inside : q.front < 1024
  pub room : length xs < 1024
  pub rear : q.rear ≡ (q.front + length xs) % 1024
  pub bytes : At q.buf q.front xs
  pub ended : q.buf q.rear ≡ 0

-- The queue holds these bytes. The places behind them and in front of them have a NUL.
pub record Holds (q : TtyQueue) (xs : Bytes) : Type 0 where
  pub window : Window q xs
  pub before : q.buf ((q.front + 1023) % 1024) ≡ 0

pub tty_enqueue-Holds :
    (q : TtyQueue) (xs : Bytes) (c : ℕ)
    → Holds q xs
    → length xs < 1023
    → (q' : TtyQueue) × (tty_enqueue q c ≡ some q') × Holds q' (xs ++ c ∷ [])
unfolding tty_enqueue
tty_enqueue-Holds q xs c h room =
    let inside = h.window.inside in
    let rear = h.window.rear in
    let next : wrapped q.rear ≡ (q.front + suc (length xs)) % 1024 = ground arith in
    let free : (wrapped q.rear == q.front) ≡ false = rw next (ground arith) in
    let longer = length-append xs (c ∷ []) in
    let buf1 = put q.buf q.rear c in
    (
      record q { buf = put buf1 (wrapped q.rear) 0; rear = wrapped q.rear },
      rw free refl,
      record {
        window = record {
          inside = inside;
          room = omega (arith, longer);
          rear = next ∙ ap (λ n. (q.front + n) % 1024) (omega (arith, longer));
          bytes =
              At-put buf1 q.front (suc (length xs)) (wrapped q.rear) 0 (xs ++ c ∷ [])
                (omega (arith, longer)) (omega arith) next
                (At-append buf1 q.front c xs
                  (At-put q.buf q.front (length xs) q.rear c xs (omega arith) (omega arith) rear
                    h.window.bytes)
                  (rw (sym rear) (ground arith)));
          ended = ground arith;
        };
        before = let b = h.before in rw next (ground (arith, b));
      },
    )

pub tty_enqueue_full :
    (q : TtyQueue) (xs : Bytes) (c : ℕ) → Holds q xs → length xs ≡ 1023 → tty_enqueue q c ≡ none
unfolding tty_enqueue
tty_enqueue_full q xs c h full =
    let inside = h.window.inside in
    let rear = h.window.rear in
    let meets : (wrapped q.rear == q.front) ≡ true = ground arith in rw meets refl

-- The place in front of `rear`.
abbrev last_place : TtyQueue → ℕ
last_place q = (if q.rear == 0 then cook_buf_size else q.rear) - 1

pub tty_pop_back_lem :
    (q : TtyQueue) (xs : Bytes) (c : ℕ)
    → Holds q (xs ++ c ∷ [])
    → c ≢ 0
    → (q' : TtyQueue) × (tty_pop_back q ≡ (true, q')) × Holds q' xs
unfolding tty_pop_back
tty_pop_back_lem q xs c h ne =
    let inside = h.window.inside in
    let rear = h.window.rear in
    let longer = length-append xs (c ∷ []) in
    let room = h.window.room in
    let (front, last) = At-last q.buf q.front c xs h.window.bytes in
    let place : last_place q ≡ (q.front + length xs) % 1024 = ground (arith, longer, rear) in
    let at : q.buf (last_place q) ≡ c = ap q.buf place ∙ last in
    let taken : (not (q.front == cook_buf_size) && not (q.buf (last_place q) == 0)) ≡ true =
      ground (arith, at) in
    (
      record q { buf = put q.buf (last_place q) 0; rear = last_place q },
      rw taken refl,
      record {
        window = record {
          inside = inside;
          room = omega (arith, longer);
          rear = place;
          bytes =
              At-put q.buf q.front (length xs) (last_place q) 0 xs (omega arith)
                (omega (arith, longer)) place front;
          ended = ground arith;
        };
        before = let b = h.before in ground (arith, b);
      },
    )

-- Nothing is taken back behind a NUL, or from an empty queue.
pub tty_pop_back_stop :
    (q : TtyQueue) (xs : Bytes)
    → Holds q xs
    → (xs ≡ []) ⊎ ((ys : Bytes) × (xs ≡ ys ++ 0 ∷ []))
    → tty_pop_back q ≡ (false, q)
unfolding tty_pop_back
tty_pop_back_stop q xs h stop =
    let none_taken : (not (q.front == cook_buf_size) && not (q.buf (last_place q) == 0)) ≡ false =
      (let z = zero_there stop in ground (arith, z)) in
    rw none_taken refl
  where
    zero_there : (xs ≡ []) ⊎ ((ys : Bytes) × (xs ≡ ys ++ 0 ∷ [])) → q.buf (last_place q) ≡ 0
    zero_there (inl e) =
        let inside = h.window.inside in
        let rear : q.rear ≡ (q.front + 0) % 1024 =
          h.window.rear ∙ ap (λ l. (q.front + length l) % 1024) e in
        let place : last_place q ≡ (q.front + 1023) % 1024 = ground (arith, rear) in
        ap q.buf place ∙ h.before
    zero_there (inr (ys, e)) =
        let inside = h.window.inside in
        let longer = length-append ys (0 ∷ []) in
        let rear : q.rear ≡ (q.front + length (ys ++ 0 ∷ [])) % 1024 =
          h.window.rear ∙ ap (λ l. (q.front + length l) % 1024) e in
        let place : last_place q ≡ (q.front + length ys) % 1024 = ground (arith, longer, rear) in
        ap q.buf place ∙ (At-last q.buf q.front 0 ys (subst (At q.buf q.front) e h.window.bytes)).1

-- `front` moves over a byte.
front_moves :
    (q : TtyQueue) (x : ℕ) (xs : Bytes)
    → Window q (x ∷ xs)
    → Window (record q { front = wrapped q.front }) xs
front_moves q x xs w =
    let inside = w.inside in
    let next : wrapped q.front ≡ (q.front + 1) % 1024 = ground arith in
    record {
      inside = ground arith;
      room = let r = w.room in omega arith;
      rear = w.rear ∙ rw next (omega arith);
      bytes = At-same q.buf (q.front + 1) (wrapped q.front) xs (omega (arith, next)) w.bytes.1;
      ended = w.ended;
    }

front_byte : (q : TtyQueue) (x : ℕ) (xs : Bytes) → Window q (x ∷ xs) → q.buf q.front ≡ x
front_byte q x xs w =
    let at : q.front % 1024 ≡ q.front = (let i = w.inside in omega arith) in rw at at w.bytes.0

take_nothing : (n : ℕ) → take {A = ℕ} n [] ≡ []
take_nothing zero = refl
take_nothing (suc n) = refl

nothing_left :
    (count nread : ℕ) → ◌≡◌ {A = ℕ × Bytes} (nread, []) (nread + 0, take (count - nread) [])
nothing_left count nread =
    let same : nread + 0 ≡ nread = omega arith in rw (same, take_nothing (count - nread)) refl

-- A byte that is stored while there is room.
stored_next :
    (count nread c : ℕ) (line : Bytes)
    → ◌≡◌ {A = ℕ × Bytes}
        (
          nread + 1 + length line,
          if ltb nread count
              then c ∷ take (count - (nread + 1)) line
              else take (count - (nread + 1)) line,
        )
        (nread + suc (length line), take (count - nread) (c ∷ line))
stored_next count nread c line =
    let sum : nread + 1 + length line ≡ nread + suc (length line) = omega arith in
    elim (Bool-cases (ltb nread count)) [
      | inl e ↦
          let more : count - nread ≡ suc (count - (nread + 1)) = ground (arith, e) in
          rw (e, more, sum) refl
      | inr e ↦
          let full : count - nread ≡ 0 = ground (arith, e) in
          let full' : count - (nread + 1) ≡ 0 = ground (arith, e) in rw (e, full, full', sum) refl
    ]

read_loop-Holds :
    (line rest : Bytes) (fuel count nread : ℕ) (q : TtyQueue)
    → Window q (line ++ 0 ∷ rest)
    → Lacks 0 line
    → length line < fuel
    → (q' : TtyQueue) × (read_loop fuel count nread q
        ≡ some ((nread + length line, take (count - nread) line), q'))
      × Holds q' rest
unfolding read_loop
read_loop-Holds line rest zero count nread q w plain enough = absurd (omega arith)
read_loop-Holds [] rest (suc fuel) count nread q w plain enough =
    let b = front_byte q 0 rest w in
    let inside = w.inside in
    (
      record q { front = wrapped q.front },
      rw b (ap (λ r. some (r, record q { front = wrapped q.front })) (nothing_left count nread)),
      record {
        window = front_moves q 0 rest w;
        before =
            let at : (wrapped q.front + 1023) % 1024 ≡ q.front = ground arith in ap q.buf at ∙ b;
      },
    )
read_loop-Holds (c ∷ line) rest (suc fuel) count nread q w plain enough =
    let b = front_byte q c (line ++ 0 ∷ rest) w in
    let differs : (c == 0) ≡ false = (let ne = plain.0 in ground arith) in
    let (q', e, h) =
      read_loop-Holds line rest fuel count (nread + 1) (record q { front = wrapped q.front })
        (front_moves q c (line ++ 0 ∷ rest) w) plain.1 (omega arith) in
    (q', rw (read_loop, b, differs, e) (ap (λ r. some (r, q')) (stored_next count nread c line)), h)

-- The loop of `tty_read` from its start.
pub read_line-Holds :
    (line rest : Bytes) (fuel count : ℕ) (q : TtyQueue)
    → Window q (line ++ 0 ∷ rest)
    → Lacks 0 line
    → length line < fuel
    → (q' : TtyQueue) × (read_loop fuel count 0 q ≡ some ((length line, take count line), q'))
      × Holds q' rest
read_line-Holds line rest fuel count q w plain enough =
    let (q', e, h) = read_loop-Holds line rest fuel count 0 q w plain enough in
    let whole : 0 + length line ≡ length line = omega arith in
    let room : count - 0 ≡ count = omega arith in
    let same : ◌≡◌ {A = ℕ × Bytes} (0 + length line, take (count - 0) line)
        (length line, take count line) =
      rw (whole, room) refl in
    (q', e ∙ ap (λ r. some (r, q')) same, h)
