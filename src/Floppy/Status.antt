-- ===== src/Floppy/Status.antt =====
-- kernel/drivers/floppy.c, `check_error`: what no error means.
use minima.Base.{
  ℕ, suc, ◌/◌, ◌%◌, ◌^◌, ◌≡◌, ◌↔◌, Bool, true, false, not, ◌&&◌, ◌||◌, Option, none, some, List, [],
  ◌∷◌, arith, ◌==◌, if◌then◌else◌, Bool-cases, inl, inr,
}
use minima.Floppy.Media.{bit, asserts, check_error}

-- None of the bits is set.
abbrev pub clear : ℕ → List ℕ → Bool
clear status [] = true
clear status (mask ∷ l) = not (bit status mask) && clear status l

-- A status without an interrupt code, of the drive that was asked, without any of the bits that report
-- an error other than an equipment check, and with the sector size that was asked for.
abbrev pub is_clean : ℕ → ℕ → ℕ → ℕ → ℕ → ℕ → Bool
is_clean num sector_size st0 st1 st2 ret_bps =
    (st0 / 2 ^ 6 == 0 && st0 % 4 == num)
    && ((not (bit st0 8) && clear st1 (128 ∷ 32 ∷ 16 ∷ 4 ∷ 2 ∷ 1 ∷ []))
        && (clear st2 (64 ∷ 32 ∷ 16 ∷ 4 ∷ 2 ∷ 1 ∷ []) && ret_bps == sector_size))

-- An error that is not 0 is returned as such, or not at all.
never :
    (x y : Bool) (n : ℕ)
    → ◌≡◌ {A = Option ℕ} (if x then none else if y then some (suc n) else none) (some 0)
    → ⊥
never true y n e = cc
never false true n e = cc
never false false n e = cc

-- The tests of the code and those of a clean status, for any bits.
agree :
    (c8 x y z w u r s t o p q v : Bool)
    → (◌≡◌ {A = Option ℕ}
        (if c8
          then none
          else if (((not x || false)
                  && ((not y || false) && ((not z || false) && ((not w || false) && true))))
                && ((not u || false) && true))
              && ((((not r || false) && ((not s || false) && ((not t || false) && true)))
                    && (not o && ((not p || false) && ((not q || false) && true))))
                  && (v || false))
          then some 0
          else none)
        (some 0))
      ↔ (((not c8 && (not x && (not y && (not z && (not w && (not u && true))))))
            && ((not r && (not s && (not t && (not o && (not p && (not q && true)))))) && v))
          ≡ true)
agree c8 x y z w u r s t o p q v = (λ e. ground (arith, e), λ e. ground (arith, e))

-- check_error returns 0 exactly for a status whose ST0 has no interrupt code, not the bit that the
-- drive is not ready, and the drive that was asked, whose ST1 and ST2 have none of the bits that
-- the code tests, and with the sector size that was asked for. The bit for an equipment check in
-- ST0 does not count: a status with it is taken for good where the rest is.
pub check_error-is_clean :
    (num sector_size st0 st1 st2 ret_bps : ℕ)
    → (check_error num sector_size st0 st1 st2 ret_bps ≡ some 0)
      ↔ (is_clean num sector_size st0 st1 st2 ret_bps ≡ true)
unfolding check_error asserts
check_error-is_clean num sector_size st0 st1 st2 ret_bps =
    elim (Bool-cases (st0 / 2 ^ 6 == 0 && st0 % 4 == num)) [
      | inl a ↦ elim (Bool-cases (bit st1 2)) [
        | inl b ↦ rw (a, b) (λ e. absurd (never _ _ 1 e), λ e. ground (arith, e))
        | inr b ↦
            rw (a, b)
              (agree (bit st0 8) (bit st1 128) (bit st1 32) (bit st1 16) (bit st1 4) (bit st1 1)
                (bit st2 64) (bit st2 32) (bit st2 16) (bit st2 4) (bit st2 2) (bit st2 1)
                (ret_bps == sector_size))
      ]
      | inr a ↦ elim (Bool-cases (bit st1 2)) [
        | inl b ↦ rw (a, b) (λ e. absurd (never _ _ 1 e), λ e. cc)
        | inr b ↦ rw (a, b) (λ e. absurd (never _ _ 0 e), λ e. cc)
      ]
    ]
