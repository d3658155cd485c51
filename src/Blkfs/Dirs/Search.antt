-- ===== src/Blkfs/Dirs/Search.antt =====
-- kernel/src/vfs/blkfs.c: `direntry_find_name` and `direntry_find_free`.
use nju_os_lab.Prelude.{
  ℕ, zero, suc, ◌+◌, ◌≤◌, ◌<◌, ◌≡◌, ◌≢◌, refl, ◌⊎◌, inl, inr, true, false, none, some, ◌==◌, arith,
  ap, sym, ◌∙◌, Bool-cases, ==→≡,
}
use nju_os_lab.Klib.Strings.{Bytes, streq}
use nju_os_lab.Blkfs.{Buffer, entry_type, entry_name}
use nju_os_lab.Blkfs.Dirs.{find_name_from, find_free_from}
use nju_os_lab.Blkfs.Dirs.Entries.{SameEntry}

-- An entry that is used and has the name.
abbrev pub Matches : Buffer → Bytes → ℕ → Type 0
Matches items name k =
    ((entry_type items k == 0) ≡ false) × (streq name (entry_name items k) ≡ true)

-- The first of the `n` entries from `i` on is passed over, or it is the one.
pub find_name-cases :
    (n i : ℕ) (items : Buffer) (name : Bytes)
    → (find_name_from (suc n) i items name ≡ find_name_from n (i + 1) items name)
        × (Matches items name i → ⊥)
      ⊎ (find_name_from (suc n) i items name ≡ some i) × Matches items name i
unfolding find_name_from
find_name-cases n i items name = elim (Bool-cases (entry_type items i == 0)) [
  | inl q ↦ inl (rw (find_name_from, q) refl, λ (u, s). cc)
  | inr q ↦ elim (Bool-cases (streq name (entry_name items i))) [
    | inl s ↦ inr (rw (find_name_from, q, s) refl, (q, s))
    | inr s ↦ inl (rw (find_name_from, q, s) refl, λ (u, s'). cc)
  ]
]

-- The entry found is one of those searched, and it matches.
pub find_name-Matches :
    (n i : ℕ) (items : Buffer) (name : Bytes) (k : ℕ)
    → find_name_from n i items name ≡ some k
    → (i ≤ k) × (k < i + n) × Matches items name k
unfolding find_name_from
find_name-Matches zero i items name k e = cc
find_name-Matches (suc n) i items name k e = elim (find_name-cases n i items name) [
  | inl (next, _) ↦
      let (lo, hi, it) = find_name-Matches n (i + 1) items name k (sym next ∙ e) in
      (omega arith, omega arith, it)
  | inr (found, it) ↦ let at : i ≡ k = cc in (omega arith, omega arith, rw (sym at) it)
]

pub find_free_lem :
    (n i : ℕ) (items : Buffer) (k : ℕ)
    → find_free_from n i items ≡ some k
    → (i ≤ k) × (k < i + n) × (entry_type items k ≡ 0)
unfolding find_free_from
find_free_lem zero i items k e = cc
find_free_lem (suc n) i items k e = elim (Bool-cases (entry_type items i == 0)) [
  | inl q ↦
      let found : find_free_from (suc n) i items ≡ some i = rw (find_free_from, q) refl in
      let at : i ≡ k = cc in (omega arith, omega arith, ==→≡ (entry_type items k) 0 (rw (sym at) q))
  | inr q ↦
      let next : find_free_from (suc n) i items ≡ find_free_from n (i + 1) items =
        rw (find_free_from, q) refl in
      let (lo, hi, z) = find_free_lem n (i + 1) items k (sym next ∙ e) in
      (omega arith, omega arith, z)
]

-- Two buffers in which the same entries match.
pub find_name_agree :
    (n i : ℕ) (m m' : Buffer) (name : Bytes)
    → ((j : ℕ)
        → i ≤ j
        → j < i + n
        → (Matches m' name j → Matches m name j) × (Matches m name j → Matches m' name j))
    → find_name_from n i m' name ≡ find_name_from n i m name
unfolding find_name_from
find_name_agree zero i m m' name h = refl
find_name_agree (suc n) i m m' name h =
    let rest = find_name_agree n (i + 1) m m' name (λ j lo hi. h j (omega arith) (omega arith)) in
    let (back, forth) = h i (omega arith) (omega arith) in
    elim (find_name-cases n i m' name) [
      | inl (next', no') ↦ elim (find_name-cases n i m name) [
        | inl (next, passed) ↦ next' ∙ rest ∙ sym next
        | inr (found, it) ↦ absurd (no' (forth it))
      ]
      | inr (found', it') ↦ elim (find_name-cases n i m name) [
        | inl (next, passed) ↦ absurd (passed (back it'))
        | inr (found, it) ↦ found' ∙ sym found
      ]
    ]

pub SameEntry-Matches :
    (m m' : Buffer) (name : Bytes) (j : ℕ)
    → SameEntry m m' j
    → (Matches m' name j → Matches m name j) × (Matches m name j → Matches m' name j)
SameEntry-Matches m m' name j same = (
  λ (u, s). (rw (sym same.type) u, rw (sym same.name) s),
  λ (u, s). (rw same.type u, rw same.name s),
)

-- Entry `ind` matches in the second buffer, and no entry does in the first; the others are the same.
pub find_name_at :
    (n i ind : ℕ) (m m' : Buffer) (name : Bytes)
    → ((j : ℕ) → ind ≢ j → SameEntry m m' j)
    → i ≤ ind
    → ind < i + n
    → Matches m' name ind
    → find_name_from n i m name ≡ none
    → find_name_from n i m' name ≡ some ind
unfolding find_name_from
find_name_at zero i ind m m' name h lo hi it e = absurd (omega arith)
find_name_at (suc n) i ind m m' name h lo hi it e = elim (find_name-cases n i m name) [
  | inr (found, _) ↦ cc
  | inl (next, passed) ↦ elim (find_name-cases n i m' name) [
    | inl (next', no') ↦ elim (Bool-cases (ind == i)) [
      | inl q ↦ absurd (no' (let at : ind ≡ i = ==→≡ ind i q in rw (sym at) it))
      | inr q ↦
          next'
          ∙ find_name_at n (i + 1) ind m m' name h (ground arith) (omega arith) it (sym next ∙ e)
    ]
    | inr (found', it') ↦ elim (Bool-cases (ind == i)) [
      | inl q ↦ found' ∙ ap some (sym (==→≡ ind i q))
      | inr q ↦ absurd (passed ((SameEntry-Matches m m' name i (h i (ground arith))).0 it'))
    ]
  ]
]
