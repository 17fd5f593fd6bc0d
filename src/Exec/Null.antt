-- ===== src/Exec/Null.antt =====
-- kernel/exec.c: what happens to a file that is no program.
use minima.Base.{
  ℕ, ◌≤◌, ◌<◌, ◌≡◌, ◌≢◌, refl, ap, ◌∙◌, Bool, true, false, ◌==◌, some, List, [], arith, take,
  length, All, ne→not-==, Option-cases, inl, inr,
}
use minima.Utils.{memcmp}
use minima.Utils.Compare.{memcmp-zero}
use minima.Exec.{
  Read, got, Mapping, ok, elf_hdr, after_ident, after_memcmp, after_load, elf_load, runs, exec,
}

-- A file that can be read and does not begin with the four bytes of an ELF file is not refused:
-- exec lets the new task run at the address 0, with nothing mapped.
pub exec-null :
    (read : ℕ → ℕ → Read) (mmap : List Mapping → Mapping → Bool) (n tid : ℕ) (ident : List ℕ)
    → read 16 0 ≡ got n ident
    → All (λ b. b < 256) ident
    → 4 ≤ length ident
    → take 4 ident ≢ elf_hdr
    → exec true (ok tid) read mmap ≡ some (runs 0 [])
unfolding exec elf_load
exec-null read mmap n tid ident reads bytes four other =
    let (inside, zero_iff) =
      memcmp-zero ident elf_hdr 4 bytes
        (omega arith, (omega arith, (omega arith, (omega arith, tt)))) four (omega arith) in
    elim (Option-cases (memcmp ident elf_hdr 4)) [
      | inl e ↦ absurd (inside e)
      | inr (c, e) ↦
          let differ : (c == 0) ≡ false =
            ne→not-== c 0 (λ z. other (zero_iff.0 (e ∙ ap (λ (k : ℕ). some k) z))) in
          ap (λ r. after_load (after_ident read mmap r)) reads
          ∙ ap (λ o. after_load (after_memcmp read mmap ident o)) e
          ∙ rw differ refl
    ]
