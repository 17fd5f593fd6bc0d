-- ===== src/Ext2/Reads.antt =====
-- kernel/fs/ext2/ext2.c, `ext2_read` and `ext2_read_at`: which bytes a read stores.
use mathlib.Core.Path.{subst}
use native.Mathlib.Nat.{div-eq_of_lt, suc-mul, mul-div_cancel}
use minima.Base.{
  ℕ, zero, suc, ◌+◌, ◌-◌, ◌*◌, ◌/◌, ◌%◌, ◌^◌, ◌≤◌, ◌<◌, ◌≡◌, ◌≢◌, min, refl, sym, ap, ◌∙◌, true,
  false, Option, none, some, List, [], ◌++◌, arith, ltb, leb, if◌then◌else◌, take, drop, length,
  add32, Bool-cases, ltb→lt, lt→ltb, not-ltb→le, inl, inr,
}
use minima.Ext2.{Ext2Fs, Inode, read_i_block}
use minima.Ext2.Inodes.{Ext2Node}
use minima.Ext2.Files.{Reading, after, to_read, read_loop, ext2_read_at, ext2_read}
use minima.Ext2.Spans.{append-nil, span, span-append, span-take}

-- The blocks of a file that a read of a number of bytes takes in: each can be read, and is whole.
abbrev pub HasBlocks : (ℕ → Option (List ℕ)) → Ext2Fs → Inode → (ℕ → List ℕ) → ℕ → Type 0
HasBlocks read_at fs inode blocks wanted =
    (i : ℕ)
    → i * fs.block_size < wanted
    → (read_i_block read_at fs inode i ≡ some (blocks i)) × (length (blocks i) ≡ fs.block_size)

-- A round, given the block that was read, the place in it and what comes after it.
abbrev round : ℕ → ℕ → Option (List ℕ) → ℕ → ℕ → Reading → Reading
round size wanted none blk_offset blk_bytes rest = Reading.failed []
round size wanted (some block) blk_offset blk_bytes rest =
    if leb (2 ^ 31) wanted
    then Reading.overruns
    else if ltb size (blk_offset + blk_bytes)
    then Reading.overruns
    else after (take blk_bytes (drop blk_offset block)) rest

round-elim :
    (size wanted : ℕ) (o : Option (List ℕ)) (blk_offset blk_bytes : ℕ) (rest : Reading)
    → elim o [
      | none ↦ Reading.failed []
      | some block ↦
          if leb (2 ^ 31) wanted
          then Reading.overruns
          else if ltb size (blk_offset + blk_bytes)
          then Reading.overruns
          else after (take blk_bytes (drop blk_offset block)) rest
    ]
      ≡ round size wanted o blk_offset blk_bytes rest
round-elim size wanted none blk_offset blk_bytes rest = refl
round-elim size wanted (some block) blk_offset blk_bytes rest = refl

round-fits :
    (size wanted : ℕ) (block : List ℕ) (blk_offset blk_bytes : ℕ) (rest : Reading)
    → wanted < 2 ^ 31
    → blk_offset + blk_bytes ≤ size
    → round size wanted (some block) blk_offset blk_bytes rest
      ≡ after (take blk_bytes (drop blk_offset block)) rest
round-fits size wanted block blk_offset blk_bytes rest signed fits = ground arith

round-past :
    (size wanted : ℕ) (block : List ℕ) (blk_offset : ℕ) (rest : Reading)
    → wanted < 2 ^ 31
    → 0 < blk_offset
    → round size wanted (some block) blk_offset size rest ≡ Reading.overruns
round-past size wanted block blk_offset rest signed past = ground arith

module _ (read_at : ℕ → Option (List ℕ)) (fs : Ext2Fs) (inode : Inode) (blocks : ℕ → List ℕ)
    (offset wanted : ℕ) (bs : 0 < fs.block_size) (aligned : offset % fs.block_size ≡ 0)
    (signed : wanted < 2 ^ 31) (has : HasBlocks read_at fs inode blocks wanted) where
  -- One round of the loop that is not the last.
  loop-round :
      (fuel b : ℕ)
      → b * fs.block_size < wanted
      → read_loop read_at fs inode offset wanted (suc fuel) (b * fs.block_size)
        ≡ after (take (min (wanted - b * fs.block_size) fs.block_size) (blocks b)) (
            if ltb (b * fs.block_size + min (wanted - b * fs.block_size) fs.block_size) wanted
            then read_loop read_at fs inode offset wanted fuel
                (b * fs.block_size + min (wanted - b * fs.block_size) fs.block_size)
            else Reading.stored [])
  unfolding read_loop
  loop-round fuel b h =
      let size = fs.block_size in
      let chunk = min (wanted - b * size) size in
      let rest =
        if ltb (b * size + chunk) wanted
        then read_loop read_at fs inode offset wanted fuel (b * size + chunk)
        else Reading.stored [] in
      let idx : b * size / size ≡ b = mul-div_cancel b bs in
      let read : read_i_block read_at fs inode (b * size / size) ≡ some (blocks b) =
        ap (read_i_block read_at fs inode) idx ∙ (has b h).0 in
      round-elim size wanted (read_i_block read_at fs inode (b * size / size)) (offset % size) chunk
        rest
      ∙ ap (λ o. round size wanted o (offset % size) chunk rest) read
      ∙ ap (λ k. round size wanted (some (blocks b)) k chunk rest) aligned
      ∙ round-fits size wanted (blocks b) 0 chunk rest signed (omega arith)

  read_loop-span :
      (fuel b : ℕ)
      → b * fs.block_size < wanted
      → wanted ≤ (b + fuel) * fs.block_size
      → read_loop read_at fs inode offset wanted fuel (b * fs.block_size)
        ≡ Reading.stored
            (span blocks fs.block_size (b * fs.block_size) (wanted - b * fs.block_size))
  read_loop-span zero b h enough =
      let e : b + 0 ≡ b = omega arith in
      absurd (omega (arith, h, subst (λ x. wanted ≤ x * fs.block_size) e enough))
  read_loop-span (suc fuel) b h enough =
      let size = fs.block_size in
      let left = wanted - b * size in
      let start : b * size + 0 ≡ b * size = omega arith in
      let part : (n : ℕ) → n ≤ size → take n (blocks b) ≡ span blocks size (b * size) n = λ n le.
        sym (span-take (blocks b) blocks size b 0 n (has b h).1 refl (omega arith))
        ∙ ap (λ j. span blocks size j n) start in
      let tail : ℕ → Reading = λ n. after (take n (blocks b)) (
        if ltb (b * size + n) wanted
        then read_loop read_at fs inode offset wanted fuel (b * size + n)
        else Reading.stored []) in
      loop-round fuel b h ∙ elim (Bool-cases (ltb size left)) [
        | inl more ↦
            let less : size < left = ltb→lt size left more in
            let chunk : min left size ≡ size = omega (arith, less) in
            let on : b * size + size ≡ suc b * size = sym (suc-mul b size) in
            let goes : ltb (b * size + size) wanted ≡ true =
              lt→ltb (b * size + size) wanted (omega (arith, less)) in
            let e : b + suc fuel ≡ suc b + fuel = omega arith in
            let later =
              read_loop-span fuel (suc b) (omega (arith, on, less))
                (subst (λ x. wanted ≤ x * size) e enough) in
            let split : left ≡ size + (wanted - suc b * size) = omega (arith, on, less) in
            ap tail chunk
            ∙ ap
                (λ t. after (take size (blocks b)) (
                  if t
                  then read_loop read_at fs inode offset wanted fuel (b * size + size)
                  else Reading.stored []))
                goes
            ∙ ap
                (λ j.
                  after (take size (blocks b)) (read_loop read_at fs inode offset wanted fuel j))
                on
            ∙ ap (after (take size (blocks b))) later
            ∙ ap
                (λ l. Reading.stored (l ++ span blocks size (suc b * size) (wanted - suc b * size)))
                (part size (omega arith))
            ∙ ap
                (λ j.
                  Reading.stored (
                    span blocks size (b * size) size ++ span blocks size j (wanted - suc b * size)))
                (sym on)
            ∙ ap Reading.stored
                (sym (span-append blocks size (b * size) size (wanted - suc b * size)))
            ∙ ap (λ n. Reading.stored (span blocks size (b * size) n)) (sym split)
        | inr last ↦
            let most : left ≤ size = not-ltb→le size left last in
            let chunk : min left size ≡ left = omega (arith, most) in
            let stops : ltb (b * size + left) wanted ≡ false = ground (arith, h) in
            ap tail chunk
            ∙ ap
                (λ t. after (take left (blocks b)) (
                  if t
                  then read_loop read_at fs inode offset wanted fuel (b * size + left)
                  else Reading.stored []))
                stops
            ∙ ap Reading.stored (append-nil (take left (blocks b)) ∙ part left most)
      ]

length-span : (blocks : ℕ → List ℕ) (size i n : ℕ) → length (span blocks size i n) ≡ n
length-span blocks size i zero = refl
length-span blocks size i (suc n) = ap suc (length-span blocks size (suc i) n)

module _ (read_at : ℕ → Option (List ℕ)) (fs : Ext2Fs) (n : Ext2Node) (blocks : ℕ → List ℕ)
    (fuel offset bytes : ℕ) (bs : 0 < fs.block_size) where
  read_loop-first :
      offset % fs.block_size ≡ 0
      → (to_read n.inode.bytes_lsb offset bytes) < 2 ^ 31
      → 0 < (to_read n.inode.bytes_lsb offset bytes)
      → (to_read n.inode.bytes_lsb offset bytes) ≤ fuel * fs.block_size
      → HasBlocks read_at fs n.inode blocks (to_read n.inode.bytes_lsb offset bytes)
      → read_loop read_at fs n.inode offset (to_read n.inode.bytes_lsb offset bytes) fuel 0
        ≡ Reading.stored (span blocks fs.block_size 0 (to_read n.inode.bytes_lsb offset bytes))
  read_loop-first aligned signed some_bytes enough has =
      let size = fs.block_size in
      let wanted = to_read n.inode.bytes_lsb offset bytes in
      let z : 0 * size ≡ 0 = omega arith in
      let e : 0 + fuel ≡ fuel = omega arith in
      let whole : wanted - 0 ≡ wanted = omega arith in
      let at_0 =
        read_loop-span read_at fs n.inode blocks offset wanted bs aligned signed has fuel 0
          (omega arith) (subst (λ x. wanted ≤ x * size) (sym e) enough) in
      ap (read_loop read_at fs n.inode offset wanted fuel) (sym z)
      ∙ at_0
      ∙ ap (λ x. Reading.stored (span blocks size x (wanted - x))) z
      ∙ ap (λ x. Reading.stored (span blocks size 0 x)) whole

  -- Where the offset is a multiple of the block size, the bytes that ext2_read has to read are more
  -- than 0 and fewer than 2 GiB, and the blocks that so many bytes take up from the beginning of
  -- the file on can be read, it returns with one round for each of them, stores as many bytes from
  -- the beginning of the file on, whatever the offset is, and moves the offset by their number.
  pub ext2_read-first_bytes :
      offset % fs.block_size ≡ 0
      → (to_read n.inode.bytes_lsb offset bytes) < 2 ^ 31
      → 0 < (to_read n.inode.bytes_lsb offset bytes)
      → (to_read n.inode.bytes_lsb offset bytes) ≤ fuel * fs.block_size
      → HasBlocks read_at fs n.inode blocks (to_read n.inode.bytes_lsb offset bytes)
      → ext2_read read_at fs fuel n offset bytes ≡ (
        add32 offset (to_read n.inode.bytes_lsb offset bytes),
        Reading.stored (span blocks fs.block_size 0 (to_read n.inode.bytes_lsb offset bytes)),
      )
  unfolding ext2_read
  ext2_read-first_bytes aligned signed some_bytes enough has =
      let wanted = to_read n.inode.bytes_lsb offset bytes in
      let result : Reading → ℕ × Reading = λ reading.
        (elim reading [ Reading.stored out ↦ add32 offset (length out) | _ ↦ offset ], reading) in
      let stored_bytes = span blocks fs.block_size 0 wanted in
      ap result (read_loop-first aligned signed some_bytes enough has)
      ∙ ap (λ l. (add32 offset l, Reading.stored stored_bytes))
          (length-span blocks fs.block_size 0 wanted)

-- Where the offset is not a multiple of the block size, at least a block of bytes is to be read,
-- fewer than 2 GiB, and the first block of the file can be read, ext2_read_at copies from past the
-- end of that block.
ext2_read_at-overruns :
    (read_at : ℕ → Option (List ℕ)) (fs : Ext2Fs) (n : Ext2Node) (fuel offset bytes : ℕ)
    (block : List ℕ)
    → 0 < fs.block_size
    → offset % fs.block_size ≢ 0
    → (to_read n.inode.bytes_lsb offset bytes) < 2 ^ 31
    → fs.block_size ≤ (to_read n.inode.bytes_lsb offset bytes)
    → read_i_block read_at fs n.inode 0 ≡ some block
    → ext2_read_at read_at fs (suc fuel) n bytes offset ≡ Reading.overruns
unfolding ext2_read_at read_loop
ext2_read_at-overruns read_at fs n fuel offset bytes block bs unaligned signed whole has =
    let size = fs.block_size in
    let wanted = to_read n.inode.bytes_lsb offset bytes in
    let chunk = min (wanted - 0) size in
    let rest =
      if ltb (0 + chunk) wanted
      then read_loop read_at fs n.inode offset wanted fuel (0 + chunk)
      else Reading.stored [] in
    let read : read_i_block read_at fs n.inode (0 / size) ≡ some block =
      ap (read_i_block read_at fs n.inode) (div-eq_of_lt bs) ∙ has in
    let all : chunk ≡ size = omega (arith, whole) in
    round-elim size wanted (read_i_block read_at fs n.inode (0 / size)) (offset % size) chunk rest
    ∙ ap (λ o. round size wanted o (offset % size) chunk rest) read
    ∙ ap (λ c. round size wanted (some block) (offset % size) c rest) all
    ∙ round-past size wanted block (offset % size) rest signed (omega (arith, unaligned))
