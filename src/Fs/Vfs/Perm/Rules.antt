-- ===== src/Fs/Vfs/Perm/Rules.antt =====
-- The check of kernel/fs/vfs.c against the rules that its comments give.
use yart_os.Prelude.{
  ℕ, ◌/◌, ◌%◌, ◌≡◌, ◌≢◌, ◌⊎◌, inl, inr, refl, true, false, List, [], ◌∷◌, Option, some, none, take,
  arith, Bool-cases, sym, subst,
}
use yart_os.Fs.Vfs.Perm.{
  AclEntry, Rights, acl_max, acl_loop, in_group, class_bits, grants, check_perm,
}

-- The first entry for the user has the mask.
abbrev pub Names : (euid mask : ℕ) → List AclEntry → Type 0
Names euid mask [] = ⊥
Names euid mask (e ∷ es) =
    ((e.uid ≡ euid) × (e.mask ≡ mask)) ⊎ ((e.uid ≢ euid) × Names euid mask es)

abbrev pub Member : (g : ℕ) → List ℕ → Type 0
Member g [] = ⊥
Member g (h ∷ gs) = (g ≡ h) ⊎ Member g gs

-- Who may do what: the superuser everything; a user with an entry what the entry says; and else the
-- owner, the members of the group and the others what their bits of the mode say.
pub data Allowed (v : Rights) (euid : ℕ) (groups : List ℕ) (want : ℕ) : Type 0 where
  superuser : euid ≡ 0 → Allowed v euid groups want
  listed :
      (mask : ℕ)
      → Names euid mask (take acl_max v.acl)
      → grants mask want ≡ true
      → Allowed v euid groups want
  owner :
      ((mask : ℕ) → Names euid mask (take acl_max v.acl) → ⊥)
      → v.owner ≡ euid
      → grants (v.mode / 64 % 8) want ≡ true
      → Allowed v euid groups want
  member :
      ((mask : ℕ) → Names euid mask (take acl_max v.acl) → ⊥)
      → v.owner ≢ euid
      → Member v.group groups
      → grants (v.mode / 8 % 8) want ≡ true
      → Allowed v euid groups want
  other :
      ((mask : ℕ) → Names euid mask (take acl_max v.acl) → ⊥)
      → v.owner ≢ euid
      → (Member v.group groups → ⊥)
      → grants (v.mode % 8) want ≡ true
      → Allowed v euid groups want

-- The search in the list of entries.
data Found (euid : ℕ) (es : List AclEntry) : Option ℕ → Type 0 where
  found : (mask : ℕ) → Names euid mask es → Found euid es (some mask)
  missing : ((mask : ℕ) → Names euid mask es → ⊥) → Found euid es none

uid_cases : (a b : ℕ) → (a ≡ b) ⊎ (a ≢ b)
uid_cases a b = ground arith

Names-acl_loop :
    (euid mask : ℕ) (es : List AclEntry) → Names euid mask es → acl_loop es euid ≡ some mask
unfolding acl_loop
Names-acl_loop euid mask [] h = absurd h
Names-acl_loop euid mask (e ∷ es) (inl (p, q)) = ground (arith, p, q)
Names-acl_loop euid mask (e ∷ es) (inr (z, h)) = ground (arith, z, Names-acl_loop euid mask es h)

acl_loop-Found : (es : List AclEntry) (euid : ℕ) → Found euid es (acl_loop es euid)
unfolding acl_loop
acl_loop-Found [] euid = missing (λ mask h. h)
acl_loop-Found (e ∷ es) euid = elim (uid_cases e.uid euid) [
  | inl p ↦
      let q : acl_loop (e ∷ es) euid ≡ some e.mask = ground (arith, p) in
      subst (Found euid (e ∷ es)) (sym q) (found e.mask (inl (p, refl)))
  | inr z ↦
      let q : acl_loop (e ∷ es) euid ≡ acl_loop es euid = ground (arith, z) in
      subst (Found euid (e ∷ es)) (sym q)
        (past e es euid z (acl_loop es euid) (acl_loop-Found es euid))
]
  where
    past :
        (e : AclEntry) (es : List AclEntry) (euid : ℕ)
        → e.uid ≢ euid
        → (o : Option ℕ) → Found euid es o
        → Found euid (e ∷ es) o
    past e es euid z o (found mask h) = found mask (inr (z, h))
    past e es euid z o (missing unnamed) =
        missing (λ mask h. elim h [ inl p ↦ z p.0 | inr p ↦ unnamed mask p.1 ])

Member-in_group : (g : ℕ) (gs : List ℕ) → Member g gs → in_group g gs ≡ true
unfolding in_group
Member-in_group g [] h = absurd h
Member-in_group g (x ∷ gs) (inl e) = ground (arith, e)
Member-in_group g (x ∷ gs) (inr h) = ground (arith, Member-in_group g gs h)

in_group-Member : (g : ℕ) (gs : List ℕ) → in_group g gs ≡ true → Member g gs
unfolding in_group
in_group-Member g [] h = absurd (ground (arith, h))
in_group-Member g (x ∷ gs) h = elim (uid_cases g x) [
  | inl e ↦ inl e
  | inr z ↦ inr (in_group-Member g gs (ground (arith, h, z)))
]

unnamed-acl_loop :
    (es : List AclEntry) (euid : ℕ)
    → ((mask : ℕ) → Names euid mask es → ⊥)
    → acl_loop es euid ≡ none
unnamed-acl_loop es euid h = go (acl_loop es euid) (acl_loop-Found es euid)
  where
    go : (o : Option ℕ) → Found euid es o → o ≡ none
    go o (found mask g) = absurd (h mask g)
    go o (missing g) = refl

outsider : (g : ℕ) (gs : List ℕ) → (Member g gs → ⊥) → in_group g gs ≡ false
outsider g gs h = elim (Bool-cases (in_group g gs)) [
  | inl e ↦ absurd (h (in_group-Member g gs e))
  | inr e ↦ e
]

module _ (v : Rights) (euid : ℕ) (groups : List ℕ) (want : ℕ) where
  Allowed-check_perm : Allowed v euid groups want → check_perm v euid groups want ≡ true
  unfolding check_perm
  Allowed-check_perm (superuser z) = ground (arith, z)
  Allowed-check_perm (listed mask h g) =
      let q = Names-acl_loop euid mask (take acl_max v.acl) h in ground (arith, q, g)
  Allowed-check_perm (owner h e g) =
      let q = unnamed-acl_loop (take acl_max v.acl) euid h in ground (arith, q, e, g)
  Allowed-check_perm (member h e m g) =
      let q = unnamed-acl_loop (take acl_max v.acl) euid h in
      let i = Member-in_group v.group groups m in ground (arith, q, e, i, g)
  Allowed-check_perm (other h e m g) =
      let q = unnamed-acl_loop (take acl_max v.acl) euid h in
      let i = outsider v.group groups m in ground (arith, q, e, i, g)

  by_class :
      ((mask : ℕ) → Names euid mask (take acl_max v.acl) → ⊥)
      → grants (class_bits v euid groups) want ≡ true
      → Allowed v euid groups want
  by_class h g = elim (uid_cases v.owner euid) [
    | inl e ↦ owner h e (ground (arith, e, g))
    | inr z ↦ elim (Bool-cases (in_group v.group groups)) [
      | inl i ↦ member h z (in_group-Member v.group groups i) (ground (arith, z, i, g))
      | inr i ↦
          other h z (λ m. absurd (ground (arith, i, Member-in_group v.group groups m)))
            (ground (arith, z, i, g))
    ]
  ]

  by_acl :
      (o : Option ℕ)
      → Found euid (take acl_max v.acl) o
      → acl_loop (take acl_max v.acl) euid ≡ o
      → euid ≢ 0
      → check_perm v euid groups want ≡ true
      → Allowed v euid groups want
  unfolding check_perm
  by_acl o (found mask h) e z c = listed mask h (ground (arith, e, z, c))
  by_acl o (missing h) e z c = by_class h (ground (arith, e, z, c))

  check_perm_sound : check_perm v euid groups want ≡ true → Allowed v euid groups want
  check_perm_sound c = elim (uid_cases euid 0) [
    | inl z ↦ superuser z
    | inr z ↦
        by_acl (acl_loop (take acl_max v.acl) euid) (acl_loop-Found (take acl_max v.acl) euid) refl
          z c
  ]

  -- vfs_check_perm decides the rules: it returns true exactly for what is allowed.
  pub check_perm-Allowed :
      ((check_perm v euid groups want ≡ true) × Allowed v euid groups want)
      ⊎ ((check_perm v euid groups want ≡ false) × (Allowed v euid groups want → ⊥))
  check_perm-Allowed = elim (Bool-cases (check_perm v euid groups want)) [
    | inl c ↦ inl (c, check_perm_sound c)
    | inr c ↦ inr (c, λ a. absurd (ground (arith, c, Allowed-check_perm a)))
  ]
