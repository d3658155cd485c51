-- ===== src/Vfs/Resolve.antt =====
-- kernel/src/vfs/vfs.c: which mount a path belongs to.
use nju_os_lab.Prelude.{
  ℕ, ◌-◌, ◌≤◌, ◌≡◌, refl, Bool, true, false, Option, none, some, List, [], ◌∷◌, ◌++◌, ◌==◌, ◌&&◌,
  if◌then◌else◌, length, drop, arith, Bool-cases, inl, inr, ◌⊎◌, All, take, zero, suc, ap, sym, ◌∙◌,
  ◌↔◌,
}
use nju_os_lab.Klib.Strings.{Bytes, strneq}
use nju_os_lab.Klib.Strings.Compare.{IsString, strneq_iff}
use nju_os_lab.Path.{slash}
use nju_os_lab.Vfs.{Mount}
use nju_os_lab.Vfs.Mounts.{longer, best_mount, subpath_of, get_mount_fs}

abbrev pub covers : Bytes → Mount → Bool
covers path mn = strneq path mn.path (length mn.path)

abbrev pub InList : Mount → List Mount → Type 0
InList mn [] = false ≡ true
InList mn (cur ∷ rest) = (cur ≡ mn) ⊎ InList mn rest

abbrev pub NotLonger : Bytes → Mount → Mount → Type 0
NotLonger path best mn = covers path mn ≡ true → length mn.path ≤ length best.path

abbrev pub Uncovered : Bytes → Mount → Type 0
Uncovered path mn = covers path mn ≡ false

abbrev AtLeast : Option Mount → Mount → Type 0
AtLeast none best = Unit
AtLeast (some r) best = length r.path ≤ length best.path

-- What the loop returns that starts with `res`.
abbrev Best : Bytes → List Mount → Option Mount → Option Mount → Type 0
Best path mounts res none = (res ≡ none) × All (Uncovered path) mounts
Best path mounts res (some best) =
    ((res ≡ some best) ⊎ (InList best mounts × (covers path best ≡ true)))
    × All (NotLonger path best) mounts
    × AtLeast res best

some-inj : {a b : Mount} → some a ≡ some b → a ≡ b
some-inj e = cc

taken :
    (path : Bytes) (cur : Mount) (rest : List Mount) (res r : Option Mount)
    → (covers path cur && longer (length cur.path) res) ≡ true
    → Best path rest (some cur) r
    → Best path (cur ∷ rest) res r
taken path cur rest res none e b = absurd (cc (b.0))
taken path cur rest none (some best) e b =
    let here : covers path cur ≡ true = ground arith in
    (
      elim b.0 [ inl same ↦ inr (inl (some-inj same), cc) | inr (deeper, c) ↦ inr (inr deeper, c) ],
      (λ c. b.2, b.1),
      tt,
    )
taken path cur rest (some old) (some best) e b =
    let above : length old.path ≤ length cur.path = ground arith in
    let here : covers path cur ≡ true = ground arith in
    let above_best : length cur.path ≤ length best.path = b.2 in
    (
      elim b.0 [ inl same ↦ inr (inl (some-inj same), cc) | inr (deeper, c) ↦ inr (inr deeper, c) ],
      (λ c. b.2, b.1),
      omega arith,
    )

skipped :
    (path : Bytes) (cur : Mount) (rest : List Mount) (res r : Option Mount)
    → (covers path cur && longer (length cur.path) res) ≡ false
    → Best path rest res r
    → Best path (cur ∷ rest) res r
skipped path cur rest none none e b = (refl, (ground arith, b.1))
skipped path cur rest (some old) none e b = cc
skipped path cur rest none (some best) e b = (
  elim b.0 [ inl same ↦ cc | inr (deeper, c) ↦ inr (inr deeper, c) ],
  (λ c. ground arith, b.1),
  tt,
)
skipped path cur rest (some old) (some best) e b =
    let above : length old.path ≤ length best.path = b.2 in
    (
      elim b.0 [ inl same ↦ inl same | inr (deeper, c) ↦ inr (inr deeper, c) ],
      (λ c. let small : length cur.path ≤ length old.path = ground arith in omega arith, b.1),
      above,
    )

best_mount-Best :
    (path : Bytes) (mounts : List Mount) (res : Option Mount)
    → Best path mounts res (best_mount path mounts res)
unfolding best_mount
best_mount-Best path [] none = (refl, tt)
best_mount-Best path [] (some r) = (inl refl, tt, ground arith)
best_mount-Best path (cur ∷ rest) res =
    elim (Bool-cases (covers path cur && longer (length cur.path) res)) [
      | inl e ↦ rw e (
          taken path cur rest res (best_mount path rest (some cur)) e
            (best_mount-Best path rest (some cur)))
      | inr e ↦
          rw e
            (skipped path cur rest res (best_mount path rest res) e (best_mount-Best path rest res))
    ]

take_all : (s : Bytes) → take (length s) s ≡ s
take_all [] = refl
take_all (c ∷ s) = ap (λ l. c ∷ l) (take_all s)

take-drop : (n : ℕ) (s : Bytes) → take n s ++ drop n s ≡ s
take-drop zero s = refl
take-drop (suc n) [] = refl
take-drop (suc n) (c ∷ s) = ap (λ l. c ∷ l) (take-drop n s)

drop-append : (n : ℕ) (s t : Bytes) → n ≤ length s → drop n (s ++ t) ≡ drop n s ++ t
drop-append zero s t h = refl
drop-append (suc n) [] t h = absurd (omega arith)
drop-append (suc n) (c ∷ s) t h = drop-append n s t (omega arith)

drop_all : (s : Bytes) → drop (length s) s ≡ []
drop_all [] = refl
drop_all (c ∷ s) = drop_all s

-- The path begins with the mount's path.
abbrev pub Begins : Bytes → Mount → Type 0
Begins path mn = take (length mn.path) path ≡ mn.path

covers_iff :
    (path : Bytes) (mn : Mount)
    → IsString path
    → IsString mn.path
    → (covers path mn ≡ true) ↔ Begins path mn
covers_iff path mn hp hm =
    let (to, from) = strneq_iff (length mn.path) path mn.path hp hm in
    (λ c. to c ∙ take_all mn.path, λ b. from (b ∙ sym (take_all mn.path)))

abbrev pub IsMount : Mount → Type 0
IsMount mn = IsString mn.path × (1 ≤ length mn.path)

abbrev pub Shorter : Bytes → Mount → Mount → Type 0
Shorter path best mn = Begins path mn → length mn.path ≤ length best.path

all-Shorter :
    (path : Bytes) (best : Mount) (mounts : List Mount)
    → IsString path
    → All IsMount mounts
    → All (NotLonger path best) mounts
    → All (Shorter path best) mounts
all-Shorter path best [] hp hs h = tt
all-Shorter path best (mn ∷ mounts) hp hs h =
    (λ b. h.0 ((covers_iff path mn hp hs.0.0).1 b), all-Shorter path best mounts hp hs.1 h.1)

none-Begins :
    (path : Bytes) (mounts : List Mount)
    → IsString path
    → All IsMount mounts
    → All (Uncovered path) mounts
    → All (λ mn. ¬ Begins path mn) mounts
none-Begins path [] hp hs h = tt
none-Begins path (mn ∷ mounts) hp hs h = (
  λ b.
      let c = (covers_iff path mn hp hs.0.0).1 b in
      let n : covers path mn ≡ false = h.0 in absurd (cc),
  none-Begins path mounts hp hs.1 h.1,
)

mount_in : (mn : Mount) (mounts : List Mount) → InList mn mounts → All IsMount mounts → IsMount mn
mount_in mn [] i hs = cc
mount_in mn (cur ∷ mounts) (inl e) hs = rw (sym e) hs.0
mount_in mn (cur ∷ mounts) (inr i) hs = mount_in mn mounts i hs.1

-- The path inside a mount, from the mount's path and what follows it.
abbrev pub inside : Bytes → Bytes → Bytes
inside m [] = slash ∷ []
inside m (c ∷ rest) = if c == slash then c ∷ rest else drop (length m - 1) m ++ c ∷ rest

subpath_of-append :
    (m tail : Bytes) → 1 ≤ length m → subpath_of (m ++ tail) (length m) ≡ inside m tail
unfolding subpath_of
subpath_of-append m [] h =
    rw (subpath_of, drop-append (length m) m [] (omega arith), drop_all m) refl
subpath_of-append m (c ∷ rest) h =
    rw
      (
        subpath_of,
        drop-append (length m) m (c ∷ rest) (omega arith),
        drop_all m,
        drop-append (length m - 1) m (c ∷ rest) (omega arith),
      )
      refl

-- What `get_mount_fs` returns for a path.
abbrev pub Resolved : Bytes → List Mount → Option (Mount × Bytes) → Type 0
Resolved path mounts none = All (λ mn. ¬ Begins path mn) mounts
Resolved path mounts (some (mn, sub)) =
    InList mn mounts
    × All (Shorter path mn) mounts
    × ((tail : Bytes) × (path ≡ mn.path ++ tail) × (sub ≡ inside mn.path tail))

-- For C strings, with no empty path among the mounts, `get_mount_fs` returns nothing exactly if no mount's path begins the given path; otherwise a listed
-- mount whose path does, the longest such, and the path inside it: what follows the mount's path, "/" for
-- nothing, and from the last byte of the mount's path on if no '/' follows.
pub get_mount_fs_lem :
    (path : Bytes) (mounts : List Mount)
    → IsString path
    → All IsMount mounts
    → Resolved path mounts (get_mount_fs path mounts)
unfolding get_mount_fs
get_mount_fs_lem path mounts hp hs =
    go (best_mount path mounts none) refl (best_mount-Best path mounts none)
  where
    go :
        (o : Option Mount)
        → best_mount path mounts none ≡ o
        → Best path mounts none o
        → Resolved path mounts (get_mount_fs path mounts)
    go none e b = rw (Resolved, get_mount_fs, e) (none-Begins path mounts hp hs b.1)
    go (some mn) e b =
        let (listed, c) : InList mn mounts × (covers path mn ≡ true) = elim b.0 [
          | inl e' ↦ cc
          | inr x ↦ x
        ] in
        let (string, some_byte) = mount_in mn mounts listed hs in
        let begins = (covers_iff path mn hp string).0 c in
        let tail = drop (length mn.path) path in
        let whole : path ≡ mn.path ++ tail =
          sym (take-drop (length mn.path) path) ∙ ap (λ l. l ++ tail) begins in
        rw (Resolved, get_mount_fs, e)
          (
            listed,
            all-Shorter path mn mounts hp hs b.1,
            (
              tail,
              whole,
              ap (λ p. subpath_of p (length mn.path)) whole
                  ∙ subpath_of-append mn.path tail some_byte,
            ),
          )
