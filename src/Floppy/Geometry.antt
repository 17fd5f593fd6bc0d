-- ===== src/Floppy/Geometry.antt =====
-- kernel/drivers/floppy.c: the head, the cylinder and the sector of a block.
use minima.Base.{
  span, ℕ, zero, suc, ◌+◌, ◌-◌, ◌*◌, ◌/◌, ◌%◌, ◌≤◌, ◌<◌, ◌≡◌, refl, sym, ap, ◌∙◌, ◌∷◌, arith, take,
  drop,
}
use native.Mathlib.Nat.{
  mod-lt, mul-pos, mul-le-mul_right, div-lt_iff_lt-mul, div-div-eq-div-mul, mul_comm,
}
use minima.Floppy.{Format, lba_to_head, lba_to_cyl, lba_to_sector}

pub take-span : (byte : ℕ → ℕ) (i n m : ℕ) → n ≤ m → take n (span byte i m) ≡ span byte i n
take-span byte i zero m h = refl
take-span byte i (suc n) zero h = absurd (omega arith)
take-span byte i (suc n) (suc m) h = ap (λ l. byte i ∷ l) (take-span byte (suc i) n m (omega arith))

pub drop-span :
    (byte : ℕ → ℕ) (i k m : ℕ) → k ≤ m → drop k (span byte i m) ≡ span byte (i + k) (m - k)
drop-span byte i zero m h =
    let e : i ≡ i + 0 = omega arith in
    let e' : m ≡ m - 0 = omega arith in ap (λ j. span byte j m) e ∙ ap (span byte (i + 0)) e'
drop-span byte i (suc k) zero h = absurd (omega arith)
drop-span byte i (suc k) (suc m) h =
    let e : suc i + k ≡ i + suc k = omega arith in
    let e' : m - k ≡ suc m - suc k = omega arith in
    drop-span byte (suc i) k m (omega arith)
    ∙ ap (λ j. span byte j (m - k)) e
    ∙ ap (span byte (i + suc k)) e'

-- Cylinder, head and sector of a block lie within the format, and give its number back.
pub record IsPlace (f : Format) (lba : ℕ) : Type 0 where
  pub head : lba_to_head f lba < f.heads
  pub sector : lba_to_sector f lba ≤ f.sectors_per_track
  pub sector_from : 1 ≤ lba_to_sector f lba
  pub number :
      (lba_to_cyl f lba * f.heads + lba_to_head f lba) * f.sectors_per_track
        + (lba_to_sector f lba - 1)
      ≡ lba

pub lba-IsPlace : (f : Format) (lba : ℕ) → 0 < f.heads → 0 < f.sectors_per_track → IsPlace f lba
unfolding lba_to_head lba_to_cyl lba_to_sector
lba-IsPlace f lba h s =
    let q = lba / f.sectors_per_track in
    let cyl : lba / (f.heads * f.sectors_per_track) ≡ q / f.heads =
      ap (λ m. lba / m) (mul_comm f.heads f.sectors_per_track)
      ∙ sym (div-div-eq-div-mul lba f.sectors_per_track f.heads) in
    let track : q / f.heads * f.heads + q % f.heads ≡ q = grind arith in
    let all : q * f.sectors_per_track + lba % f.sectors_per_track ≡ lba = grind arith in
    let low = mod-lt lba s in
    record {
      head = mod-lt q h;
      sector = omega (arith, low);
      sector_from = omega arith;
      number =
          ap
            (λ c.
              (c * f.heads + q % f.heads) * f.sectors_per_track
              + (lba % f.sectors_per_track + 1 - 1))
            cyl
          ∙ ap (λ t. t * f.sectors_per_track + (lba % f.sectors_per_track + 1 - 1)) track
          ∙ omega (arith, all);
    }

-- The place of a block in its cylinder, counted in bytes, and in the whole disk.
pub place_in_disk :
    (sec spt heads c h r lba : ℕ)
    → (c * heads + h) * spt + r ≡ lba
    → c * (sec * spt * heads) + (h * (spt * sec) + r * sec) ≡ lba * sec
place_in_disk sec spt heads c h r lba e =
    let scaled : ((c * heads + h) * spt + r) * sec ≡ lba * sec = ap (λ n. n * sec) e in
    let out : c * (sec * spt * heads) + (h * (spt * sec) + r * sec)
        ≡ ((c * heads + h) * spt + r) * sec =
      grind arith in
    out ∙ scaled

pub place_in_cyl :
    (sec spt heads h r : ℕ)
    → h < heads
    → r < spt
    → h * (spt * sec) + r * sec + sec ≤ sec * spt * heads
place_in_cyl sec spt heads h r low low' =
    let a : suc r * sec ≤ spt * sec = mul-le-mul_right sec low' in
    let b : suc h * (spt * sec) ≤ heads * (spt * sec) = mul-le-mul_right (spt * sec) low in
    let same : heads * (spt * sec) ≡ sec * spt * heads = grind arith in omega (arith, a, b, same)

pub cyl_in_disk :
    (f : Format) (lba : ℕ)
    → 0 < f.heads
    → 0 < f.sectors_per_track
    → lba < f.cyls * f.heads * f.sectors_per_track
    → lba_to_cyl f lba < f.cyls
unfolding lba_to_cyl
cyl_in_disk f lba h s low =
    let n = f.heads * f.sectors_per_track in
    let e : f.cyls * f.heads * f.sectors_per_track ≡ f.cyls * n = grind arith in
    let pos : 0 < n = mul-pos h s in (div-lt_iff_lt-mul pos).1 (omega (arith, e, low))
