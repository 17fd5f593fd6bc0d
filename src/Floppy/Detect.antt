-- ===== src/Floppy/Detect.antt =====
-- kernel/drivers/floppy.c, `detect_media`: it ends with the first format that can be read.
use minima.Base.{
  if◌then◌else◌, ◌==◌, ℕ, zero, suc, ◌+◌, ◌<◌, ◌≡◌, ◌≢◌, refl, sym, ap, ◌∙◌, Bool, true, false,
  none, some, List, [], ◌∷◌, ◌++◌, arith, length, get_elem?, All, Bool-cases, inl, inr,
}
use minima.Floppy.Media.{
  Detect, next_format, next_media_type, Detection, ended, refused, try_format, detect_loop,
  detect_media,
}

-- The first format of an order that can be read, with its place counted from a number; the start of the
-- drive if there is none.
abbrev pub first_read : (ℕ → Bool) → ℕ → List ℕ → Detect
first_read fails i [] = record { f = none; detect_idx = 0 }
first_read fails i (k ∷ l) = elim (fails k) [
  | true ↦ first_read fails (suc i) l
  | false ↦ record { f = some k; detect_idx = i }
]

loop-first_read :
    (fails : ℕ → Bool) (order l rest : List ℕ) (fuel i k : ℕ)
    → ((j : ℕ) → get_elem? order (suc i + j) ≡ get_elem? (l ++ (0 ∷ rest)) j)
    → All (λ k. k ≢ 0) l
    → length l < fuel
    → detect_loop fuel order fails (record { f = some k; detect_idx = i })
      ≡ ended (first_read fails (suc i) l)
unfolding detect_loop next_media_type
loop-first_read fails order l rest zero i k same all room = absurd (omega arith)
loop-first_read fails order [] rest (suc fuel) i k same all room =
    let place : suc i ≡ suc i + 0 = omega arith in
    ap (λ o. try_format fails (detect_loop fuel order fails) (next_format (suc i) o))
      (ap (get_elem? order) place ∙ same 0)
loop-first_read fails order (zero ∷ l) rest (suc fuel) i k same all room = absurd (all.0 refl)
loop-first_read fails order (suc m ∷ l) rest (suc fuel) i k same all room =
    let place : suc i ≡ suc i + 0 = omega arith in
    let d : Detect = record { f = some (suc m); detect_idx = suc i } in
    let same' : (j : ℕ) → get_elem? order (suc (suc i) + j) ≡ get_elem? (l ++ (0 ∷ rest)) j = λ j.
      let moved : suc (suc i) + j ≡ suc i + suc j = omega arith in
      ap (get_elem? order) moved ∙ same (suc j) in
    let tried : Bool → Detection =
      λ b. elim b [ true ↦ detect_loop fuel order fails d | false ↦ ended d ] in
    let found : Bool → Detect =
      λ b. elim b [ true ↦ first_read fails (suc (suc i)) l | false ↦ d ] in
    let start : try_format fails (detect_loop fuel order fails)
          (next_format (suc i) (get_elem? order (suc i)))
        ≡ tried (fails (suc m)) =
      ap (λ o. try_format fails (detect_loop fuel order fails) (next_format (suc i) o))
        (ap (get_elem? order) place ∙ same 0) in
    elim (Bool-cases (fails (suc m))) [
      | inl e ↦
          start
          ∙ ap tried e
          ∙ loop-first_read fails order l rest fuel (suc i) (suc m) same' all.1
              (omega (arith, room))
          ∙ ap (λ b. ended (found b)) (sym e)
      | inr e ↦ start ∙ ap tried e ∙ ap (λ b. ended (found b)) (sym e)
    ]

recalibrated-first_read :
    (fails : ℕ → Bool) (k : ℕ) (l rest : List ℕ) (fuel : ℕ)
    → All (λ k. k ≢ 0) (k ∷ l)
    → length (k ∷ l) < fuel
    → detect_loop fuel ((k ∷ l) ++ (0 ∷ rest)) fails (record { f = none; detect_idx = 0 })
      ≡ ended (first_read fails 0 (k ∷ l))
unfolding detect_loop next_media_type
recalibrated-first_read fails k l rest zero all room = absurd (omega arith)
recalibrated-first_read fails k l rest (suc fuel) all room =
    let order = (k ∷ l) ++ (0 ∷ rest) in
    let d : Detect = record { f = some k; detect_idx = 0 } in
    let same : (j : ℕ) → get_elem? order (1 + j) ≡ get_elem? (l ++ (0 ∷ rest)) j =
      λ j. let moved : 1 + j ≡ suc j = omega arith in ap (get_elem? order) moved in
    let tried : Bool → Detection =
      λ b. elim b [ true ↦ detect_loop fuel order fails d | false ↦ ended d ] in
    let found : Bool → Detect = λ b. elim b [ true ↦ first_read fails 1 l | false ↦ d ] in
    elim (Bool-cases (fails k)) [
      | inl e ↦
          ap tried e
          ∙ loop-first_read fails order l rest fuel 0 k same all.1 (omega (arith, room))
          ∙ ap (λ b. ended (found b)) (sym e)
      | inr e ↦ ap tried e ∙ ap (λ b. ended (found b)) (sym e)
    ]

-- detect_media returns the error of cmd_recalibrate, if there is one. Or else, for an order of
-- formats that begins with at least one number other than 0 and has a 0 behind these, it ends
-- within one round more than there are formats before that 0, with the first of them for which
-- cmd_read_id does not fail, or with no format if it fails for all.
pub detect_media-first_read :
    (fails : ℕ → Bool) (k : ℕ) (l rest : List ℕ) (fuel ret : ℕ)
    → All (λ k. k ≢ 0) (k ∷ l)
    → length (k ∷ l) < fuel
    → detect_media fuel ((k ∷ l) ++ (0 ∷ rest)) ret fails
      ≡ (if ret == 0 then ended (first_read fails 0 (k ∷ l)) else refused ret)
unfolding detect_media
detect_media-first_read fails k l rest fuel ret all room = elim (Bool-cases (ret == 0)) [
  | inl e ↦ rw e (recalibrated-first_read fails k l rest fuel all room)
  | inr e ↦ rw e refl
]
