-- ===== src/Devfs/Names.antt =====
-- kernel/src/vfs/devfs.c: the names that devfs knows.
use nju_os_lab.Prelude.{
  ℕ, suc, ◌+◌, ◌≡◌, ◌≢◌, refl, inl, inr, ap, false, Option, none, some, List, [], ◌∷◌, ◌==◌,
  get_elem?, length, All, arith, Bool-cases, Option-cases,
}
use nju_os_lab.Klib.Strings.{Bytes, streq}
use nju_os_lab.Klib.Strings.Compare.{IsString, streq_iff}
use nju_os_lab.Devfs.{dev_names, lookup_from, dev_lookup, as_node, fs_lookup}

-- What a lookup finds among names: the place of an equal one, counted from `i` on, or that there is none.
abbrev pub FoundIs : List Bytes → Bytes → ℕ → Option ℕ → Type 0
FoundIs names name i none = All (λ n. n ≢ name) names
FoundIs names name i (some j) = (k : ℕ) × (j ≡ i + k) × (get_elem? names k ≡ some name)

lookup_from-FoundIs :
    (i : ℕ) (names : List Bytes) (name : Bytes)
    → All IsString names
    → IsString name
    → FoundIs names name i (lookup_from i names name)
unfolding lookup_from
lookup_from-FoundIs i [] name hs h = tt
lookup_from-FoundIs i (n ∷ names) name hs h =
    let equal = streq_iff n name hs.0 h in
    let ih = lookup_from-FoundIs (i + 1) names name hs.1 h in
    elim (Bool-cases (streq n name)) [
      | inl e ↦ rw e (0, omega arith, ap (λ t. some t) (equal.0 e))
      | inr e ↦ elim (Option-cases (lookup_from (i + 1) names name)) [
        | inl f ↦ rw (e, f) ((λ same. (let t = equal.1 same in cc)), rw f at ih)
        | inr (j, f) ↦
            let (k, at, there) = rw f at ih in rw (e, f) (suc k, omega (arith, at), there)
      ]
    ]

dev_names-IsString : All IsString dev_names
dev_names-IsString = omega arith

-- A lookup in devfs ends without a failed assertion for a path that starts with '/': it finds the root for "/", the device with that name for '/' and a name of the table, and
-- nothing for any other name.
pub fs_lookup-FoundIs :
    (name : Bytes)
    → IsString name
    → name ≢ []
    → (fs_lookup (b'/' ∷ []) ≡ some (some none))
      × ((r : Option ℕ) × (fs_lookup (b'/' ∷ name) ≡ some (as_node r)) × FoundIs dev_names name 0 r)
unfolding fs_lookup dev_lookup
fs_lookup-FoundIs [] h ne = absurd (ne refl)
fs_lookup-FoundIs (c ∷ name) h ne =
    let found = lookup_from-FoundIs 0 dev_names (c ∷ name) dev_names-IsString h in
    let short : (length (b'/' ∷ c ∷ name) == 1) ≡ false = ground arith in
    (refl, (lookup_from 0 dev_names (c ∷ name), rw short refl, found))
