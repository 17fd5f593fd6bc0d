-- ===== src/Ext2/Index.antt =====
-- kernel/fs/ext2/ext2.c, `read_i_block`: the blocks of a file as places in the tree of pointers that
-- its inode holds.
use native.Mathlib.Nat.{mod-eq_of_lt}
use minima.Base.{
  ℕ, ◌+◌, ◌*◌, ◌/◌, ◌%◌, ◌^◌, ◌≤◌, ◌<◌, ◌≡◌, refl, sym, ap, ◌∙◌, not, ◌&&◌, Option, none, some,
  List, [], ◌∷◌, arith, ltb, ◌==◌, if◌then◌else◌, get_or, sub32, mul32,
}
use minima.Ext2.{
  Ext2Fs, Inode, per_block, address, read_block, read_indirect, read_linked, read_i_block,
}
use minima.Ext2.Digits.{
  first_digit, last_digit, lowest_digit, middle_digit, other_digits, three_digits, two_digits,
}

-- A block of a file: one of the twelve that the inode names, or the path to it from one of the
-- three roots of indirect blocks.
pub data Place : Type 0 where
  direct : ℕ → Place
  singly : ℕ → Place
  doubly : ℕ → ℕ → Place
  triply : ℕ → ℕ → ℕ → Place

-- The number of the block in the file, with apb addresses in a block.
abbrev pub index_of : ℕ → Place → ℕ
index_of apb (direct a) = a
index_of apb (singly a) = 12 + a
index_of apb (doubly b a) = 12 + apb + (b * apb + a)
index_of apb (triply c b a) = 12 + apb + apb * apb + (c * (apb * apb) + (b * apb + a))

abbrev pub IsPlace : ℕ → Place → Type 0
IsPlace apb (direct a) = a < 12
IsPlace apb (singly a) = a < apb
IsPlace apb (doubly b a) = (b < apb) × (a < apb)
IsPlace apb (triply c b a) = (c < apb) × (b < apb) × (a < apb)

-- Blocks hold at least one address, and the numbers of all blocks of a file fit in 32 bits.
abbrev pub Fits : ℕ → Type 0
Fits apb = (0 < apb) × (12 + apb + apb * apb + apb * apb * apb ≤ 2 ^ 32)

module _ (read_at : ℕ → Option (List ℕ)) (fs : Ext2Fs) where
  -- The block that a pointer leads to along a path of positions; only the last pointer must not be
  -- 0.
  abbrev pub walk : ℕ → List ℕ → Option (List ℕ)
  walk a [] = if a == 0 then none else read_block read_at fs a
  walk a (d ∷ path) = elim (read_block read_at fs a) [
    | none ↦ none
    | some block ↦ walk (address block d) path
  ]

  abbrev pub from_root : ℕ → List ℕ → Option (List ℕ)
  from_root a path = if a == 0 then none else walk a path

  abbrev pub follow : Inode → Place → Option (List ℕ)
  follow inode (direct a) = from_root (get_or inode.dir_blocks a 0) []
  follow inode (singly a) = from_root inode.singly_linked (a ∷ [])
  follow inode (doubly b a) = from_root inode.doubly_linked (b ∷ a ∷ [])
  follow inode (triply c b a) = from_root inode.triply_linked (c ∷ b ∷ a ∷ [])

-- The four cases of `read_i_block`, on the sizes of the four parts of a file.
abbrev choose : (n q t idx r0 r1 r2 r3 : ℕ) (x0 x1 x2 x3 : Option (List ℕ)) → Option (List ℕ)
choose n q t idx r0 r1 r2 r3 x0 x1 x2 x3 =
    if ltb idx 12 && not (r0 == 0)
    then x0
    else if ltb (sub32 idx 12) n && not (r1 == 0)
    then x1
    else if ltb (sub32 (sub32 idx 12) n) q && not (r2 == 0)
    then x2
    else if ltb (sub32 (sub32 (sub32 idx 12) n) q) t && not (r3 == 0)
    then x3
    else none

module _ (n q t idx r0 r1 r2 r3 : ℕ) (x0 x1 x2 x3 : Option (List ℕ))
    (fits : 12 + n + q + t ≤ 2 ^ 32) where
  choose0 : idx < 12 → choose n q t idx r0 r1 r2 r3 x0 x1 x2 x3 ≡ (if r0 == 0 then none else x0)
  choose0 h = ground arith

  choose1 :
      12 ≤ idx
      → idx < 12 + n
      → choose n q t idx r0 r1 r2 r3 x0 x1 x2 x3 ≡ (if r1 == 0 then none else x1)
  choose1 h h' = ground arith

  choose2 :
      12 + n ≤ idx
      → idx < 12 + n + q
      → choose n q t idx r0 r1 r2 r3 x0 x1 x2 x3 ≡ (if r2 == 0 then none else x2)
  choose2 h h' = ground arith

  choose3 :
      12 + n + q ≤ idx
      → idx < 12 + n + q + t
      → choose n q t idx r0 r1 r2 r3 x0 x1 x2 x3 ≡ (if r3 == 0 then none else x3)
  choose3 h h' = ground arith

-- Two ways to go on from a result are the same when they agree on every value.
bind_ext :
    (r : Option (List ℕ)) (f g : List ℕ → Option (List ℕ))
    → ((block : List ℕ) → f block ≡ g block)
    → elim r [ none ↦ none | some block ↦ f block ] ≡ elim r [ none ↦ none | some block ↦ g block ]
bind_ext none f g h = refl
bind_ext (some block) f g h = h block

module _ (read_at : ℕ → Option (List ℕ)) (fs : Ext2Fs) where
  read_indirect-walk0 :
      (idx a : ℕ) (block : List ℕ)
      → idx % per_block fs ≡ a
      → read_indirect read_at fs idx block 0 ≡ walk read_at fs (address block a) []
  unfolding read_indirect
  read_indirect-walk0 idx a block e =
      ap (λ d. if address block d == 0 then none else read_block read_at fs (address block d)) e

  read_indirect-walk1 :
      (idx b a : ℕ) (block : List ℕ)
      → idx / per_block fs % per_block fs ≡ b
      → idx % per_block fs ≡ a
      → read_indirect read_at fs idx block 1 ≡ walk read_at fs (address block b) (a ∷ [])
  unfolding read_indirect
  read_indirect-walk1 idx b a block eb ea =
      ap
        (λ d. elim (read_block read_at fs (address block d)) [
          | none ↦ none
          | some next_block ↦ read_indirect read_at fs idx next_block 0
        ])
        eb
      ∙ bind_ext (read_block read_at fs (address block b)) _ _
          (λ next_block. read_indirect-walk0 idx a next_block ea)

  read_indirect-walk2 :
      (idx c b a : ℕ) (block : List ℕ)
      → idx / (per_block fs * per_block fs) % (per_block fs * per_block fs) ≡ c
      → idx / per_block fs % per_block fs ≡ b
      → idx % per_block fs ≡ a
      → read_indirect read_at fs idx block 2 ≡ walk read_at fs (address block c) (b ∷ a ∷ [])
  unfolding read_indirect
  read_indirect-walk2 idx c b a block ec eb ea =
      ap
        (λ d. elim (read_block read_at fs (address block d)) [
          | none ↦ none
          | some next_block ↦ read_indirect read_at fs idx next_block 1
        ])
        ec
      ∙ bind_ext (read_block read_at fs (address block c)) _ _
          (λ next_block. read_indirect-walk1 idx b a next_block eb ea)

  read_linked-walk :
      (linked idx depth : ℕ) (path : List ℕ) (d : ℕ)
      → ((block : List ℕ)
          → read_indirect read_at fs idx block depth ≡ walk read_at fs (address block d) path)
      → read_linked read_at fs linked idx depth ≡ walk read_at fs linked (d ∷ path)
  unfolding read_linked
  read_linked-walk linked idx depth path d h = bind_ext (read_block read_at fs linked) _ _ h

  -- `read_i_block`, given the square and the cube of the addresses in a block
  abbrev chosen : Inode → ℕ → ℕ → ℕ → Option (List ℕ)
  chosen inode idx q t =
      choose (per_block fs) q t idx (get_or inode.dir_blocks idx 0) inode.singly_linked
        inode.doubly_linked inode.triply_linked
        (read_block read_at fs (get_or inode.dir_blocks idx 0))
        (read_linked read_at fs inode.singly_linked (sub32 idx 12) 0)
        (read_linked read_at fs inode.doubly_linked (sub32 (sub32 idx 12) (per_block fs)) 1)
        (read_linked read_at fs inode.triply_linked (sub32 (sub32 (sub32 idx 12) (per_block fs)) q)
          2)

  read_i_block-chosen :
      (inode : Inode) (idx : ℕ)
      → Fits (per_block fs)
      → read_i_block read_at fs inode idx
        ≡ chosen inode idx
            (per_block fs * per_block fs)
            (per_block fs * per_block fs * per_block fs)
  unfolding read_i_block
  read_i_block-chosen inode idx fits =
      let n = per_block fs in
      ap (λ q. chosen inode idx q (mul32 q n)) (mod-eq_of_lt (omega (arith, fits.1)))
      ∙ ap (chosen inode idx (n * n)) (mod-eq_of_lt (omega (arith, fits.1)))

  from_root_nil :
      (a : ℕ) → from_root read_at fs a [] ≡ (if a == 0 then none else read_block read_at fs a)
  from_root_nil a = ground arith

  -- With blocks of at least one address and few enough of them for 32 bits, read_i_block of the
  -- number of a block reads the block that the pointers of the inode lead to: one of the twelve, or
  -- the one at the end of the path of one, two or three blocks of addresses. Where the first or the
  -- last pointer on the way is 0 or a block cannot be read, it is an error.
  pub read_i_block-follow :
      (inode : Inode) (p : Place)
      → Fits (per_block fs)
      → IsPlace (per_block fs) p
      → read_i_block read_at fs inode (index_of (per_block fs) p) ≡ follow read_at fs inode p
  read_i_block-follow inode (direct a) fits place =
      read_i_block-chosen inode a fits
      ∙ choose0 _ _ _ a _ _ _ _ _ _ _ _ fits.1 place
      ∙ sym (from_root_nil (get_or inode.dir_blocks a 0))
  read_i_block-follow inode (singly a) fits place =
      let n = per_block fs in
      let idx1 : sub32 (12 + a) 12 ≡ a = omega (arith, fits.1) in
      let same =
        read_linked-walk inode.singly_linked (sub32 (12 + a) 12) 0 [] a
          (λ block. read_indirect-walk0 _ a block (ap (λ i. i % n) idx1 ∙ mod-eq_of_lt place)) in
      read_i_block-chosen inode (12 + a) fits
      ∙ choose1 n (n * n) (n * n * n) (12 + a) _ _ _ _ _ _ _ _ fits.1 (omega arith) (omega arith)
      ∙ ap (λ r. if inode.singly_linked == 0 then none else r) same
  read_i_block-follow inode (doubly b a) fits place =
      let n = per_block fs in
      let idx = 12 + n + (b * n + a) in
      let low = two_digits n b a place.0 place.1 in
      let idx2 : sub32 (sub32 idx 12) n ≡ b * n + a = omega (arith, fits.1, low) in
      let same =
        read_linked-walk inode.doubly_linked (sub32 (sub32 idx 12) n) 1 (a ∷ []) b (λ block.
          read_indirect-walk1 _ b a block
            (ap (λ i. i / n % n) idx2
              ∙ ap (λ x. x % n) (other_digits n b a place.1)
              ∙ mod-eq_of_lt place.0)
            (ap (λ i. i % n) idx2 ∙ last_digit n b a place.1)) in
      read_i_block-chosen inode idx fits
      ∙ choose2 n (n * n) (n * n * n) idx _ _ _ _ _ _ _ _ fits.1 (omega arith) (omega (arith, low))
      ∙ ap (λ r. if inode.doubly_linked == 0 then none else r) same
  read_i_block-follow inode (triply c b a) fits place =
      let n = per_block fs in
      let rest = c * (n * n) + (b * n + a) in
      let idx = 12 + n + n * n + rest in
      let low = three_digits n c b a place.0 place.1 place.2 in
      let idx3 : sub32 (sub32 (sub32 idx 12) n) (n * n) ≡ rest = omega (arith, fits.1, low) in
      let same =
        read_linked-walk inode.triply_linked (sub32 (sub32 (sub32 idx 12) n) (n * n)) 2 (b ∷ a ∷ [])
          c
          (λ block.
            read_indirect-walk2 _ c b a block
              (ap (λ i. i / (n * n) % (n * n)) idx3 ∙ first_digit n c b a place.0 place.1 place.2)
              (ap (λ i. i / n % n) idx3 ∙ middle_digit n c b a place.1 place.2)
              (ap (λ i. i % n) idx3 ∙ lowest_digit n c b a place.2)) in
      read_i_block-chosen inode idx fits
      ∙ choose3 n (n * n) (n * n * n) idx _ _ _ _ _ _ _ _ fits.1 (omega arith) (omega (arith, low))
      ∙ ap (λ r. if inode.triply_linked == 0 then none else r) same
