-- ===== src/Fs/Blkfs/Layout/Closed.antt =====
-- What compute_layout of kernel/fs/blkfs.c computes, in closed form.
use yart_os.Prelude.{
  ℕ, zero, suc, ◌+◌, ◌-◌, ◌*◌, ◌/◌, ◌^◌, ◌≤◌, ◌<◌, ◌≡◌, refl, sym, ap, ◌∙◌, false, none, some, leb,
  update, u32_mod, add32, arith, Bool-cases, Option-cases, inl, inr, ==_refl, min, subst,
}
use native.Mathlib.Decide.{dec_lt}
use yart_os.Fs.Blkfs.Layout.{
  GroupDesc, Layout, group_desc, span_of, span_end_of, fill, place, finish, compute_layout,
  sum_data, journal_blocks, blocks_per_group, meta_per_group, max_groups, no_desc, clamp,
}

-- The loop succeeds only where each group has room for a data block, and then each descriptor is
-- the one of its group.
pub fill-some :
    (n g j : ℕ) (desc desc' : ℕ → GroupDesc)
    → fill n g j desc ≡ some desc'
    → ((k : ℕ)
        → g ≤ k
        → k < g + n
        → (desc' k ≡ group_desc j k) × (span_of k + meta_per_group < span_end_of j k))
      × ((k : ℕ) → k < g → desc' k ≡ desc k)
unfolding fill
fill-some zero g j desc desc' e =
    ((λ k a b. absurd (omega arith)), λ k h. let q : desc' ≡ desc = cc e in ap (λ f. f k) q)
fill-some (suc n) g j desc desc' e =
    elim (Bool-cases (leb (span_end_of j g) (span_of g + meta_per_group))) [
      | inl t ↦ let q : none ≡ some desc' = rw (t, fill) at e in cc q
      | inr f ↦
          let q : fill n (g + 1) j (update desc g (group_desc j g)) ≡ some desc' =
            rw (f, fill) at e in
          let (a, b) = fill-some n (g + 1) j (update desc g (group_desc j g)) desc' q in
          (
            (λ k lo hi. elim (dec_lt g k) [
              | yes later ↦ a k (omega arith) (omega arith)
              | no here ↦
                  let z : k ≡ g = omega arith in
                  rw z (b g (omega arith) ∙ rw (==_refl g), ground arith)
            ]),
            λ k h. b k (omega arith) ∙ ground arith,
          )
    ]

-- A journal that starts after the first group's metadata, and room in each of the `n` groups.
pub record HasRoom (n j : ℕ) (desc : ℕ → GroupDesc) : Type 0 where
  pub at : (k : ℕ) → k < n → desc k ≡ group_desc j k
  pub room : (k : ℕ) → k < n → span_of k + meta_per_group < span_end_of j k
  pub low : 2 ≤ j
  pub high : j < 2 ^ 31

pub span_end_of-min : (j g : ℕ) → span_end_of j g ≡ min j (span_of g + blocks_per_group)
span_end_of-min j g = ground arith

-- The data blocks of the first `n` groups are what their spans leave beside the metadata.
pub sum_data-closed :
    (n j : ℕ) (desc : ℕ → GroupDesc)
    → HasRoom n j desc
    → sum_data n desc + 2 + meta_per_group * n ≡ min j (span_of n)
unfolding sum_data
sum_data-closed zero j desc r = omega (arith, r.low)
sum_data-closed (suc n) j desc r =
    let ih = sum_data-closed n j desc (record {
      at = λ k h. r.at k (omega arith);
      room = λ k h. r.room k (omega arith);
      low = r.low;
      high = r.high;
    }) in
    let e = r.at n (omega arith) in
    rw e (omega (arith, ih, r.room n (omega arith), r.high, r.low, span_end_of-min j n))

pub fill-ok :
    (n g j : ℕ) (desc : ℕ → GroupDesc)
    → ((k : ℕ) → g ≤ k → k < g + n → span_of k + meta_per_group < span_end_of j k)
    → (desc' : ℕ → GroupDesc) × (fill n g j desc ≡ some desc')
unfolding fill
fill-ok zero g j desc room = (desc, refl)
fill-ok (suc n) g j desc room =
    let f : leb (span_end_of j g) (span_of g + meta_per_group) ≡ false =
      ground (arith, room g (omega arith) (omega arith)) in
    let (d, e) =
      fill-ok n (g + 1) j (update desc g (group_desc j g))
        (λ k lo hi. room k (omega arith) (omega arith)) in
    (d, rw (f, fill) e)

-- The number of groups, of data blocks and of CRC blocks for a disk of `total` blocks.
abbrev pub groups_of : ℕ → ℕ
groups_of total = (total + 4095) / 4096

abbrev pub data_total_of : ℕ → ℕ
data_total_of total = total - journal_blocks - 2 - meta_per_group * groups_of total

abbrev pub crc_total_of : ℕ → ℕ
crc_total_of total = (data_total_of total * 4 + 4095) / 4096

-- What a successful compute_layout has computed.
pub record IsLaidOut (total : ℕ) (l : Layout) : Type 0 where
  pub large : 1024 ≤ total
  pub few : (1 ≤ groups_of total) × (groups_of total ≤ max_groups)
  pub blocks : l.total_blocks ≡ total
  pub groups : l.total_groups ≡ groups_of total
  pub journal : l.journal_start ≡ total - journal_blocks
  pub crc : l.crc_start + crc_total_of total ≡ total - journal_blocks
  pub desc :
      (k : ℕ)
      → k < groups_of total
      → l.desc k
        ≡ clamp (groups_of total) l.crc_start (λ g. group_desc (total - journal_blocks) g) k
  pub room :
      (k : ℕ)
      → k < groups_of total
      → span_of k + meta_per_group < span_end_of (total - journal_blocks) k

pub place-IsLaidOut :
    (total : ℕ) (desc : ℕ → GroupDesc)
    → 1024 ≤ total
    → total ≤ 2 ^ 18
    → HasRoom (groups_of total) (total - journal_blocks) desc
    → IsLaidOut total (place total (groups_of total) desc)
unfolding place
place-IsLaidOut total desc lo hi r =
    let closed = sum_data-closed (groups_of total) (total - journal_blocks) desc r in
    let sum : sum_data (groups_of total) desc ≡ data_total_of total = omega (arith, closed) in
    record {
      large = lo;
      few = omega arith;
      blocks = refl;
      groups = refl;
      journal = refl;
      crc = rw sum (omega arith);
      desc = λ k h. rw (r.at k h);
      room = r.room;
    }

-- the guards of compute_layout
guards :
    (total : ℕ) (l : Layout)
    → total < u32_mod
    → compute_layout total ≡ some l
    → (1024 ≤ total) × (total ≤ 2 ^ 18)
unfolding compute_layout
guards total l h e = ground arith

pub past_guards :
    (total : ℕ)
    → 1024 ≤ total
    → total ≤ 2 ^ 18
    → (desc : ℕ → GroupDesc) → fill (groups_of total) 0 (total - journal_blocks) no_desc ≡ some desc
    → compute_layout total ≡ finish (place total (groups_of total) desc)
unfolding compute_layout
past_guards total lo hi desc e =
    let q : add32 total 4095 / blocks_per_group ≡ groups_of total = omega arith in
    rw (q, e) (ground arith)

unfilled :
    (total : ℕ)
    → 1024 ≤ total
    → total ≤ 2 ^ 18
    → fill (groups_of total) 0 (total - journal_blocks) no_desc ≡ none
    → compute_layout total ≡ none
unfolding compute_layout
unfilled total lo hi e =
    let q : add32 total 4095 / blocks_per_group ≡ groups_of total = omega arith in
    rw (q, e) (ground arith)

pub finish-some :
    (l l' : Layout) → finish l ≡ some l' → (l ≡ l') × ((l.desc 0).data_start < l.crc_start)
unfolding finish
finish-some l l' e = ground arith

pub compute_layout-IsLaidOut :
    (total : ℕ) (l : Layout)
    → total < u32_mod
    → compute_layout total ≡ some l
    → IsLaidOut total l × ((l.desc 0).data_start < l.crc_start)
compute_layout-IsLaidOut total l h e =
    let (lo, hi) = guards total l h e in
    elim (Option-cases (fill (groups_of total) 0 (total - journal_blocks) no_desc)) [
      | inl n ↦ let q : none ≡ some l = sym (unfilled total lo hi n) ∙ e in cc q
      | inr (desc, f) ↦
          let (a, b) = fill-some (groups_of total) 0 (total - journal_blocks) no_desc desc f in
          let r : HasRoom (groups_of total) (total - journal_blocks) desc = record {
            at = λ k x. (a k (omega arith) (omega arith)).0;
            room = λ k x. (a k (omega arith) (omega arith)).1;
            low = omega arith;
            high = omega arith;
          } in
          let (p, q) =
            finish-some (place total (groups_of total) desc) l
              (sym (past_guards total lo hi desc f) ∙ e) in
          (
            subst (IsLaidOut total) p (place-IsLaidOut total desc lo hi r),
            subst (λ x. (x.desc 0).data_start < x.crc_start) p q,
          )
    ]
