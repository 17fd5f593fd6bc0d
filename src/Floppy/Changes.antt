-- ===== src/Floppy/Changes.antt =====
-- kernel/drivers/floppy.c, `check_media_changed`: whether a disk is in the drive, and still the same.
use minima.Base.{ℕ, suc, ◌≡◌, refl, ap, ◌∙◌, Bool, true, false, Option, none, some, if◌then◌else◌}
use minima.Floppy.{Format, Floppy, media_ejected, media_inserted}

-- What the drive answers: the bit DIR_DISK_CHANGED at each reading, whether the head of the drive
-- could be moved to clear it, and the format that is detected.
pub record Answers : Type 0 where
  pub dir : ℕ → Bool
  pub moved : Bool
  pub format : Option Format

-- The two branches for a drive without a disk, with the bit that was read and the number of the next
-- reading.
abbrev pub look_for_disk : Answers → ℕ → Floppy → Bool → Option Floppy
look_for_disk a next d false = media_inserted d a.format
look_for_disk a next d true =
    if a.moved then if a.dir next then some d else media_inserted d a.format else some d

-- The branch for a drive with a disk, with the drive after the disk is ejected and the bit.
abbrev pub with_disk : Answers → ℕ → Floppy → Option Floppy → Bool → Option Floppy
with_disk a next d ejected false = some d
with_disk a next d none true = none
with_disk a next d (some d') true = look_for_disk a (suc next) d' (a.dir next)

abbrev pub by_format : Answers → ℕ → Floppy → Option Format → Option Floppy
by_format a i d none = look_for_disk a (suc i) d (a.dir i)
by_format a i d (some f) = with_disk a (suc i) d (media_ejected d) (a.dir i)

-- `check_media_changed`, from a reading on; it calls itself once after a disk has gone. `none` is a
-- failed assertion or an access through `NULL`.
unfoldable pub check_media_changed : Answers → ℕ → Floppy → Option Floppy
check_media_changed a i d = by_format a i d d.f

-- With a disk in the drive and no change of it, nothing is done.
check_media_changed-same :
    (a : Answers) (i : ℕ) (d : Floppy) (f : Format)
    → d.f ≡ some f
    → a.dir i ≡ false
    → check_media_changed a i d ≡ some d
unfolding check_media_changed
check_media_changed-same a i d f disk same = ap (by_format a i d) disk ∙ rw same refl

-- With a disk in the drive that has been changed for another one, the old disk is ejected and then
-- the new one inserted.
check_media_changed-changed :
    (a : Answers) (i : ℕ) (d d' : Floppy) (f : Format)
    → d.f ≡ some f
    → a.dir i ≡ true
    → media_ejected d ≡ some d'
    → a.dir (suc i) ≡ true
    → a.moved ≡ true
    → a.dir (suc (suc i)) ≡ false
    → check_media_changed a i d ≡ media_inserted d' a.format
unfolding check_media_changed
check_media_changed-changed a i d d' f disk gone out seen moved clear =
    ap (by_format a i d) disk ∙ rw (gone, out, seen, moved, clear) refl
