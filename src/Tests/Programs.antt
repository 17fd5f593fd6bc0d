-- ===== src/Tests/Programs.antt =====
-- kernel/exec.c at concrete inputs: a file with one segment to be loaded, and one that is no program.
use minima.Base.{
  ℕ, ◌≡◌, ◌≢◌, refl, true, some, List, [], ◌∷◌, ◌==◌, arith, take, ap, get_or, if◌then◌else◌,
}
use minima.Exec.{Read, got, ProgHdr32, ok, elf_hdr, Exec, exec}
use minima.Exec.Images.{header, program_headers}
use minima.Exec.Null.{exec-null}

abbrev segment : ProgHdr32
segment = record {
  type = 1;
  offset = 4096;
  virt_addr = 65536;
  phys_addr = 0;
  seg_bytes = 100;
  mem_bytes = 200;
  flags = 5;
  alignment = 4096;
}

abbrev head : List ℕ
head = header (λ i. 0) 65540 52 1

abbrev program : ℕ → ℕ → Read
program n at =
    if at == 0
    then if n == 16 then got 16 (take 16 head) else got 52 head
    else got 32 (program_headers (segment ∷ []))

abbrev script : ℕ → ℕ → Read
script n at = got 4 (35 ∷ 33 ∷ 47 ∷ 98 ∷ [])

not_elf : take 4 (35 ∷ 33 ∷ 47 ∷ 98 ∷ []) ≢ elf_hdr
not_elf e = omega (arith, first e)
  where
    first : 35 ∷ 33 ∷ 47 ∷ 98 ∷ [] ≡ elf_hdr → ◌≡◌ {A = ℕ} 35 127
    first e = ap (λ l. get_or l 0 0) e

exec-null_example : exec true (ok 3) script (λ maps m. true) ≡ some (Exec.runs 0 [])
exec-null_example =
    exec-null script (λ maps m. true) 4 3 (35 ∷ 33 ∷ 47 ∷ 98 ∷ []) refl
      (omega arith, (omega arith, (omega arith, (omega arith, tt)))) (omega arith) not_elf
