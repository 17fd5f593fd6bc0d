-- ===== src/Memfs/Writes.antt =====
-- kernel/fs/mem.c, `memfs_write` and `memfs_read`: what is written is read back.
use minima.Base.{
  false, ℕ, zero, suc, ◌+◌, ◌-◌, ◌^◌, ◌≤◌, ◌<◌, ◌≡◌, min, refl, ap, ◌∙◌, true, Option, none, some,
  List, [], ◌∷◌, ◌++◌, arith, ltb, leb, if◌then◌else◌, length, get_elem?, take, drop, add32,
  Bool-cases, Option-cases, inl, inr, ◌⊎◌, length-append, ltb→lt, not-ltb→le, leb→le,
}
use minima.Memfs.Data.{memfs_read, memfs_write, Write, copy_to}

-- bytes with a buffer copied into them at an offset
abbrev splice : List ℕ → ℕ → List ℕ → List ℕ
splice bytes offset buf = take offset bytes ++ (buf ++ drop (length buf) (drop offset bytes))

take-all : (buf l : List ℕ) → take (length buf) (buf ++ l) ≡ buf
take-all [] l = refl
take-all (c ∷ buf) l = ap (λ s. c ∷ s) (take-all buf l)

splice-read :
    (bytes : List ℕ) (offset : ℕ) (buf : List ℕ)
    → offset + length buf ≤ length bytes
    → take (length buf) (drop offset (splice bytes offset buf)) ≡ buf
splice-read bytes zero buf fits = take-all buf (drop (length buf) bytes)
splice-read [] (suc offset) buf fits = absurd (omega arith)
splice-read (x ∷ bytes) (suc offset) buf fits = splice-read bytes offset buf (omega arith)

length-over :
    (buf bytes : List ℕ)
    → length buf ≤ length bytes
    → length (buf ++ drop (length buf) bytes) ≡ length bytes
length-over [] bytes fits = refl
length-over (c ∷ buf) [] fits = absurd (omega arith)
length-over (c ∷ buf) (x ∷ bytes) fits = ap suc (length-over buf bytes (omega arith))

length-splice :
    (bytes : List ℕ) (offset : ℕ) (buf : List ℕ)
    → offset + length buf ≤ length bytes
    → length (splice bytes offset buf) ≡ length bytes
length-splice bytes zero buf fits = length-over buf bytes (omega arith)
length-splice [] (suc offset) buf fits = absurd (omega arith)
length-splice (x ∷ bytes) (suc offset) buf fits =
    ap suc (length-splice bytes offset buf (omega arith))

over-other :
    (buf bytes : List ℕ) (i : ℕ)
    → length buf ≤ length bytes
    → length buf ≤ i
    → get_elem? (buf ++ drop (length buf) bytes) i ≡ get_elem? bytes i
over-other [] bytes i fits h = refl
over-other (c ∷ buf) [] i fits h = absurd (omega arith)
over-other (c ∷ buf) (x ∷ bytes) zero fits h = absurd (omega arith)
over-other (c ∷ buf) (x ∷ bytes) (suc i) fits h = over-other buf bytes i (omega arith) (omega arith)

splice-other :
    (bytes : List ℕ) (offset : ℕ) (buf : List ℕ) (i : ℕ)
    → offset + length buf ≤ length bytes
    → (i < offset) ⊎ (offset + length buf ≤ i)
    → get_elem? (splice bytes offset buf) i ≡ get_elem? bytes i
splice-other bytes zero buf i fits (inl h) = absurd (omega arith)
splice-other bytes zero buf i fits (inr h) = over-other buf bytes i (omega arith) (omega arith)
splice-other [] (suc offset) buf i fits h = absurd (omega arith)
splice-other (x ∷ bytes) (suc offset) buf zero fits h = refl
splice-other (x ∷ bytes) (suc offset) buf (suc i) fits (inl h) =
    splice-other bytes offset buf i (omega arith) (inl (omega arith))
splice-other (x ∷ bytes) (suc offset) buf (suc i) fits (inr h) =
    splice-other bytes offset buf i (omega arith) (inr (omega arith))

get_elem?-append : (s t : List ℕ) (i : ℕ) → i < length s → get_elem? (s ++ t) i ≡ get_elem? s i
get_elem?-append [] t i h = absurd (omega arith)
get_elem?-append (x ∷ s) t zero h = refl
get_elem?-append (x ∷ s) t (suc i) h = get_elem?-append s t i (omega arith)

length-drop : (n : ℕ) (s : List ℕ) → length (drop n s) ≡ length s - n
length-drop zero s = omega arith
length-drop (suc n) [] = omega arith
length-drop (suc n) (x ∷ s) = omega (arith, length-drop n s)

-- What a write of a buffer at an offset makes of the bytes of a file: reading at the offset gives
-- the buffer back, and the other bytes stay.
pub record Wrote (bytes : List ℕ) (offset : ℕ) (buf bytes' : List ℕ) : Type 0 where
  pub reads_back : memfs_read bytes' offset (length buf) ≡ (offset + length buf, buf)
  pub others :
      (i : ℕ)
      → i < length bytes
      → (i < offset) ⊎ (offset + length buf ≤ i)
      → get_elem? bytes' i ≡ get_elem? bytes i
  pub size : (length bytes ≤ length bytes') × (offset + length buf ≤ length bytes')

nothing :
    (offset : ℕ) (buf : List ℕ)
    → length buf ≡ 0
    → ◌≡◌ {A = ℕ × List ℕ} (offset, []) (offset + length buf, buf)
nothing offset [] e = let same : offset ≡ offset + 0 = omega arith in ap (λ n. (n, [])) same
nothing offset (c ∷ buf) e = absurd (omega arith)

splice-reads :
    (bytes : List ℕ) (offset : ℕ) (buf : List ℕ)
    → offset + length buf ≤ length bytes
    → memfs_read (splice bytes offset buf) offset (length buf) ≡ (offset + length buf, buf)
unfolding memfs_read
splice-reads bytes offset buf fits =
    let same = length-splice bytes offset buf fits in
    let part : ℕ → ℕ × List ℕ = λ n. (offset + n, take n (drop offset (splice bytes offset buf))) in
    elim (Bool-cases (leb (length (splice bytes offset buf)) offset)) [
      | inl past ↦
          let none_left : length buf ≡ 0 =
            omega (arith, leb→le (length (splice bytes offset buf)) offset past, same) in
          rw past (nothing offset buf none_left)
      | inr inside ↦
          let all : min (length buf) (length (splice bytes offset buf) - offset) ≡ length buf =
            omega (arith, same) in
          rw inside
            (ap part all ∙ ap (λ l. (offset + length buf, l)) (splice-read bytes offset buf fits))
    ]

copy_to-splice :
    (bytes : List ℕ) (offset : ℕ) (buf : List ℕ)
    → offset + length buf ≤ length bytes
    → offset + length buf < 2 ^ 32
    → copy_to bytes offset buf ≡ Write.written (splice bytes offset buf) (offset + length buf)
copy_to-splice bytes offset buf fits small =
    let room : leb (offset + length buf) (length bytes) ≡ true = ground arith in
    let end : add32 offset (length buf) ≡ offset + length buf = omega arith in
    rw room (ap (Write.written (splice bytes offset buf)) end)

-- Where neither the file nor the end of the write reaches 4 GiB, and kmalloc gives buffers of the
-- size it is asked for, memfs_write copies nothing past the end of a buffer: it returns -ENOMEM,
-- and kmalloc has no buffer for the longer file; or it writes and moves the offset to the end of
-- what it has written, reading as much at the old offset gives the buffer back, the other bytes of
-- the file stay, and the file holds the end of the write.
pub memfs_write-Wrote :
    (kmalloc : ℕ → Option (List ℕ)) (bytes : List ℕ) (offset : ℕ) (buf : List ℕ)
    → ((n : ℕ) (b : List ℕ) → kmalloc n ≡ some b → length b ≡ n)
    → length bytes < 2 ^ 32
    → offset + length buf < 2 ^ 32
    → ((memfs_write kmalloc bytes offset buf ≡ Write.enomem)
        × (kmalloc (offset + length buf) ≡ none))
      ⊎ ((bytes' : List ℕ) × (memfs_write kmalloc bytes offset buf
            ≡ Write.written bytes' (offset + length buf))
          × Wrote bytes offset buf bytes')
unfolding memfs_write
memfs_write-Wrote kmalloc bytes offset buf sized small fits =
    let end = offset + length buf in
    let no_wrap : add32 offset (length buf) ≡ end = omega arith in
    let grown : Option (List ℕ) → Write = λ o. elim o [
      | none ↦ Write.enomem
      | some newbuf ↦ copy_to (bytes ++ drop (length bytes) newbuf) offset buf
    ] in
    let body : ℕ → Write =
      λ e. if ltb (length bytes) e then grown (kmalloc e) else copy_to bytes offset buf in
    let start : memfs_write kmalloc bytes offset buf ≡ body end = ap body no_wrap in
    elim (Bool-cases (ltb (length bytes) end)) [
      | inr room ↦
          let here = not-ltb→le (length bytes) end room in
          let copies : body end ≡ Write.written (splice bytes offset buf) end =
            rw room (copy_to-splice bytes offset buf here fits) in
          inr (
            splice bytes offset buf,
            start ∙ copies,
            record {
              reads_back = splice-reads bytes offset buf here;
              others = λ i lt h. splice-other bytes offset buf i here h;
              size = (
                omega (arith, length-splice bytes offset buf here),
                omega (arith, here, length-splice bytes offset buf here),
              );
            },
          )
      | inl grows ↦ elim (Option-cases (kmalloc end)) [
        | inl out ↦
            let fails : body end ≡ Write.enomem = rw grows (ap grown out) in
            inl (start ∙ fails, out)
        | inr (newbuf, has) ↦
            let old = bytes ++ drop (length bytes) newbuf in
            let longer : length bytes < end = ltb→lt (length bytes) end grows in
            let len : length old ≡ end = omega (
              arith,
              length-append bytes (drop (length bytes) newbuf),
              length-drop (length bytes) newbuf,
              sized end newbuf has,
              longer,
            ) in
            let here : end ≤ length old = omega (arith, len) in
            let copies : body end ≡ Write.written (splice old offset buf) end =
              rw grows (ap grown has ∙ copy_to-splice old offset buf here fits) in
            inr (
              splice old offset buf,
              start ∙ copies,
              record {
                reads_back = splice-reads old offset buf here;
                others = λ i lt h.
                    splice-other old offset buf i here h
                    ∙ get_elem?-append bytes (drop (length bytes) newbuf) i lt;
                size = (
                  omega (arith, length-splice old offset buf here, len, longer),
                  omega (arith, here, length-splice old offset buf here),
                );
              },
            )
      ]
    ]

-- Where the end of a write reaches 4 GiB or more, so that it wraps, and what is left of it lies
-- inside the file, memfs_write takes the file to be long enough and copies past the end of its
-- buffer.
memfs_write-overruns :
    (kmalloc : ℕ → Option (List ℕ)) (bytes : List ℕ) (offset : ℕ) (buf : List ℕ)
    → length bytes < 2 ^ 32
    → 2 ^ 32 ≤ offset + length buf
    → offset + length buf ≤ 2 ^ 32 + length bytes
    → memfs_write kmalloc bytes offset buf ≡ Write.overruns
unfolding memfs_write
memfs_write-overruns kmalloc bytes offset buf small wraps inside =
    let fits : ltb (length bytes) (add32 offset (length buf)) ≡ false = ground arith in
    let long : leb (offset + length buf) (length bytes) ≡ false = ground arith in
    rw (fits, long) refl
