-- ===== src/Vma/Tables.antt =====
-- kernel/mm/vma.c: when page tables are in order, what maps a page, and what a change keeps.
use minima.Base.{
  ℕ, ◌+◌, ◌%◌, ◌≡◌, ◌≢◌, refl, sym, ap, ◌∙◌, true, false, List, [], ◌∷◌, arith, ◌==◌, All, ==_refl,
  ne→not-==,
}
use minima.Vfs.{set_at}
use minima.Vma.Paging.{Paging, is_present, frame_of}

-- no frame twice
abbrev pub Apart : List ℕ → Type 0
Apart [] = Unit
Apart (f ∷ free) = All (λ g. g ≢ f) free × Apart free

-- The free frames are aligned, no two of them are the same, and none is a page table in use.
pub record IsPaging (s : Paging) : Type 0 where
  pub tables :
      (i : ℕ)
      → is_present (s.page_directory i) ≡ true
      → All (λ f. frame_of (s.page_directory i) ≢ f) s.free
  pub apart : Apart s.free
  pub aligned : All (λ f. f % 4096 ≡ 0) s.free

-- A page is mapped by an entry.
pub record HasEntry (s : Paging) (i j pte : ℕ) : Type 0 where
  pub last : is_present (s.page_directory 1023) ≡ true
  pub table : is_present (s.page_directory i) ≡ true
  pub entry : s.page_table (frame_of (s.page_directory i)) j ≡ pte
  pub present : is_present pte ≡ true

-- What one step leaves: the frames stay apart, and what was mapped stays mapped as it was.
pub record Grows (s s' : Paging) : Type 0 where
  pub valid : IsPaging s'
  pub last : is_present (s.page_directory 1023) ≡ true → is_present (s'.page_directory 1023) ≡ true
  pub keeps : (i j pte : ℕ) → HasEntry s i j pte → HasEntry s' i j pte

pub All-sym : (f t : ℕ) (free : List ℕ) → t ≡ f → All (λ g. g ≢ f) free → All (λ g. t ≢ g) free
All-sym f t [] e h = tt
All-sym f t (g ∷ free) e h = (λ q. h.0 (sym q ∙ e), All-sym f t free e h.1)

pub new_entry : (f : ℕ) → f % 4096 ≡ 0 → (is_present (f + 3) ≡ true) × (frame_of (f + 3) ≡ f)
new_entry f aligned =
    let odd : (f + 3) % 2 ≡ 1 = omega (arith, aligned) in
    (ground (arith, odd), omega (arith, aligned))

pub true_ne_false : true ≢ false
true_ne_false e = cc

-- An entry that is present is another one than one that is not.
pub present_ne :
    (d : ℕ → ℕ) (i j : ℕ) → is_present (d i) ≡ true → is_present (d j) ≡ false → (i == j) ≡ false
present_ne d i j here missing =
    ne→not-== i j (λ e. absurd (clash (sym here ∙ ap (λ k. is_present (d k)) e ∙ missing)))
  where
    clash : true ≡ false → ⊥
    clash e = cc

pub set_at-other :
    {A : Type 0} (f : ℕ → A) (i j : ℕ) (v : A) → (j == i) ≡ false → set_at f i v j ≡ f j
set_at-other f i j v ne = rw ne refl

pub set_at-same : {A : Type 0} (f : ℕ → A) (i : ℕ) (v : A) → set_at f i v i ≡ v
set_at-same f i v = rw (==_refl i) refl

pub Grows-refl : (s : Paging) → IsPaging s → Grows s s
Grows-refl s ok = record { valid = ok; last = λ l. l; keeps = λ i j pte h. h }

pub Grows-trans : (s t u : Paging) → Grows s t → Grows t u → Grows s u
Grows-trans s t u g h = record {
  valid = h.valid;
  last = λ l. h.last (g.last l);
  keeps = λ i j pte e. h.keeps i j pte (g.keeps i j pte e);
}
