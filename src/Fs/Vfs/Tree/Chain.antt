-- ===== src/Fs/Vfs/Tree/Chain.antt =====
-- A directory of kernel/fs/vfs.c as the list of its children, and the loops over it.
use yart_os.Prelude.{
  ℕ, zero, suc, ◌+◌, ◌<◌, ◌≡◌, ◌≢◌, refl, List, [], ◌∷◌, ◌++◌, arith, if◌then◌else◌, ◌==◌, update,
  length, sym, ◌∙◌, ap, subst, fun_ext,
}
use yart_os.Fs.Vfs.Tree.{Tree, same_name, find_loop, last_loop, count_loop}

abbrev pub NotIn : ℕ → List ℕ → Type 0
NotIn v [] = Unit {0}
NotIn v (x ∷ xs) = (x ≢ v) × NotIn v xs

abbrev pub Nodup : List ℕ → Type 0
Nodup [] = Unit {0}
Nodup (x ∷ xs) = NotIn x xs × Nodup xs

-- From the pointer `c` the siblings are `xs`, and then comes NULL.
abbrev pub Chain : (ℕ → ℕ) → ℕ → List ℕ → Type 0
Chain next c [] = c ≡ 0
Chain next c (x ∷ xs) = (c ≡ x) × (x ≢ 0) × Chain next (next x) xs

abbrev pub sibling_of : Tree → ℕ → ℕ
sibling_of t c = (t.node c).sibling

abbrev pub name_of : Tree → ℕ → List ℕ
name_of t c = (t.node c).name

-- The first of the nodes with the name, or 0.
abbrev pub find_name : (ℕ → List ℕ) → List ℕ → List ℕ → ℕ
find_name names [] name = 0
find_name names (x ∷ xs) name = if same_name (names x) name then x else find_name names xs name

pub find_loop-eq :
    (n c : ℕ) (xs name : List ℕ) (t : Tree)
    → Chain (sibling_of t) c xs
    → length xs < n
    → find_loop n c name t ≡ find_name (name_of t) xs name
unfolding find_loop
find_loop-eq zero c xs name t h lt = absurd (omega arith)
find_loop-eq (suc n) c [] name t h lt = ground (arith, h)
find_loop-eq (suc n) c (x ∷ xs) name t (e, z, h) lt =
    let ih = find_loop-eq n (sibling_of t x) xs name t h (omega arith) in
    subst (λ d. find_loop (suc n) d name t ≡ find_name (name_of t) (x ∷ xs) name) (sym e)
      (unfold find_loop in ground (arith, z, ih))

pub count_loop-eq :
    (n c k : ℕ) (xs : List ℕ) (t : Tree)
    → Chain (sibling_of t) c xs
    → length xs < n
    → count_loop n c k t ≡ k + length xs
unfolding count_loop
count_loop-eq zero c k xs t h lt = absurd (omega arith)
count_loop-eq (suc n) c k [] t h lt = ground (arith, h)
count_loop-eq (suc n) c k (x ∷ xs) t (e, z, h) lt =
    let ih = count_loop-eq n (sibling_of t x) (k + 1) xs t h (omega arith) in
    subst (λ d. count_loop (suc n) d k t ≡ k + length (x ∷ xs)) (sym e)
      (unfold count_loop in ground (arith, z, ih))

-- the last of the nodes, the first of which is `x`
abbrev pub last_of : ℕ → List ℕ → ℕ
last_of x [] = x
last_of x (y ∷ ys) = last_of y ys

pub last_loop-eq :
    (n x : ℕ) (xs : List ℕ) (t : Tree)
    → Chain (sibling_of t) (sibling_of t x) xs
    → length xs < n
    → last_loop n x t ≡ last_of x xs
unfolding last_loop
last_loop-eq zero x xs t h lt = absurd (omega arith)
last_loop-eq (suc n) x [] t h lt = ground (arith, h)
last_loop-eq (suc n) x (y ∷ ys) t (e, z, h) lt =
    let ih = last_loop-eq n y ys t h (omega arith) in
    let w : last_loop n (sibling_of t x) t ≡ last_of y ys = ap (λ d. last_loop n d t) e ∙ ih in
    let q : sibling_of t x ≢ 0 = λ k. z (sym e ∙ k) in ground (arith, q, w)

-- A write to a pointer that is not among the nodes leaves the chain as it is.
pub Chain-update :
    (f : ℕ → ℕ) (p v c : ℕ) (xs : List ℕ) → NotIn p xs → Chain f c xs → Chain (update f p v) c xs
Chain-update f p v c [] n h = h
Chain-update f p v c (x ∷ xs) (n, m) (a, b, h) =
    let e : f x ≡ update f p v x = ground (arith, n) in
    (a, b, subst (λ d. Chain (update f p v) d xs) e (Chain-update f p v (f x) xs m h))

pub NotIn-last : (v x : ℕ) (xs : List ℕ) → NotIn v (x ∷ xs) → last_of x xs ≢ v
NotIn-last v x [] (n, m) = n
NotIn-last v x (y ∷ ys) (n, m) = NotIn-last v y ys m

-- A node is added behind the last one.
pub Chain-snoc :
    (f : ℕ → ℕ) (d c x : ℕ) (xs : List ℕ)
    → Chain f d (x ∷ xs)
    → NotIn c (x ∷ xs)
    → Nodup (x ∷ xs)
    → c ≢ 0
    → f c ≡ 0
    → Chain (update f (last_of x xs) c) d ((x ∷ xs) ++ (c ∷ []))
Chain-snoc f d c x [] (a, b, h) (n, m) u z e = (a, b, (ground arith, z, ground (arith, n, e)))
Chain-snoc f d c x (y ∷ ys) (a, b, h) (n, m) (u, w) z e =
    let l = NotIn-last x y ys u in
    let q : f x ≡ update f (last_of y ys) c x = ground (arith, l) in
    (
      a,
      b,
      subst (λ k. Chain (update f (last_of y ys) c) k ((y ∷ ys) ++ (c ∷ []))) q
          (Chain-snoc f (f x) c y ys h m w z e),
    )

pub NotIn-append : (v c : ℕ) (xs : List ℕ) → NotIn v xs → c ≢ v → NotIn v (xs ++ c ∷ [])
NotIn-append v c [] n z = (z, tt)
NotIn-append v c (x ∷ xs) (n, m) z = (n, NotIn-append v c xs m z)

pub Nodup-append : (c : ℕ) (xs : List ℕ) → Nodup xs → NotIn c xs → Nodup (xs ++ c ∷ [])
Nodup-append c [] u n = (tt, tt)
Nodup-append c (x ∷ xs) (m, u) (z, n) =
    (NotIn-append x c xs m (λ e. z (sym e)), Nodup-append c xs u n)

-- The lookup in a longer list: the old nodes come first.
pub find_name-append :
    (names : ℕ → List ℕ) (xs name : List ℕ) (c : ℕ)
    → NotIn 0 xs
    → find_name names (xs ++ c ∷ []) name ≡ (
        if find_name names xs name == 0
        then (if same_name (names c) name then c else 0)
        else find_name names xs name)
find_name-append names [] name c n = refl
find_name-append names (x ∷ xs) name c (z, n) =
    ground (arith, z, find_name-append names xs name c n)

pub find_name-ext :
    (f g : ℕ → List ℕ) (xs name : List ℕ)
    → ((i : ℕ) → f i ≡ g i)
    → find_name f xs name ≡ find_name g xs name
find_name-ext f g xs name e = ap (λ h. find_name h xs name) (fun_ext e)

pub Chain-NotIn : (f : ℕ → ℕ) (c : ℕ) (xs : List ℕ) → Chain f c xs → NotIn 0 xs
Chain-NotIn f c [] h = tt
Chain-NotIn f c (x ∷ xs) (a, b, h) = (b, Chain-NotIn f (f x) xs h)
