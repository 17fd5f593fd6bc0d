-- ===== src/Vma/Mapped.antt =====
-- kernel/mm/vma.c, `vm_map`: the pages of a range are mapped afterwards, and those mapped before stay.
use mathlib.Core.Path.{subst}
use minima.Base.{
  ◌⊎◌, length, ℕ, ◌+◌, ◌%◌, ◌≤◌, ◌≡◌, ◌≢◌, refl, sym, ap, ◌∙◌, true, false, some, List, [], ◌∷◌,
  arith, ◌==◌, All, Bool-cases, inl, inr, ne→not-==, ==→eq,
}
use minima.Vfs.{set_at}
use minima.Vma.Paging.{Paging, is_present, frame_of, zalloc, ensure_table, ensure_page}
use minima.Vma.Tables.{
  All-sym, Apart, Grows, Grows-refl, Grows-trans, HasEntry, IsPaging, new_entry, present_ne,
  set_at-other, set_at-same, true_ne_false,
}

-- the state after `pf_zalloc` of the first free frame
abbrev zeroed : Paging → ℕ → List ℕ → Paging
zeroed s f free = record s { page_table = set_at s.page_table f (λ i. 0); free = free }

zeroed-Grows :
    (s : Paging) (f : ℕ) (free : List ℕ)
    → IsPaging s
    → s.free ≡ f ∷ free
    → Grows s (zeroed s f free)
zeroed-Grows s f free ok e =
    let out : (i : ℕ)
        → is_present (s.page_directory i) ≡ true
        → All (λ g. frame_of (s.page_directory i) ≢ g) (f ∷ free) =
      λ i p. subst (All (λ g. frame_of (s.page_directory i) ≢ g)) e (ok.tables i p) in
    record {
      valid = record {
        tables = λ i p. (out i p).1;
        apart = (subst Apart e ok.apart).1;
        aligned = (subst (All (λ g. g % 4096 ≡ 0)) e ok.aligned).1;
      };
      last = λ l. l;
      keeps = λ i j pte h. record {
        last = h.last;
        table = h.table;
        entry =
            ap (λ t. t j)
              (set_at-other s.page_table f (frame_of (s.page_directory i)) (λ k. 0)
                (ne→not-== (frame_of (s.page_directory i)) f (out i h.table).0))
            ∙ h.entry;
        present = h.present;
      };
    }

-- A page table is put into the directory.
table-Grows :
    (s : Paging) (i f : ℕ)
    → IsPaging s
    → f % 4096 ≡ 0
    → All (λ g. g ≢ f) s.free
    → is_present (s.page_directory i) ≡ false
    → Grows s (record s { page_directory = set_at s.page_directory i (f + 3) })
table-Grows s i f ok aligned apart missing =
    let pd = set_at s.page_directory i (f + 3) in
    let (there, frame) = new_entry f aligned in
    let same : (k : ℕ) → is_present (s.page_directory k) ≡ true → pd k ≡ s.page_directory k = λ k p.
      set_at-other s.page_directory i k (f + 3) (present_ne s.page_directory k i p missing) in
    record {
      valid = record {
        tables = λ k p. elim (Bool-cases (k == i)) [
          | inl e ↦
              let at_k : pd k ≡ f + 3 = rw e refl in
              All-sym f (frame_of (pd k)) s.free (ap frame_of at_k ∙ frame) apart
          | inr ne ↦
              let at_k = set_at-other s.page_directory i k (f + 3) ne in
              subst (λ q. All (λ g. frame_of q ≢ g) s.free) (sym at_k)
                (ok.tables k (ap is_present (sym at_k) ∙ p))
        ];
        apart = ok.apart;
        aligned = ok.aligned;
      };
      last = λ l. ap is_present (same 1023 l) ∙ l;
      keeps = λ k j pte h. record {
        last = ap is_present (same 1023 h.last) ∙ h.last;
        table = ap is_present (same k h.table) ∙ h.table;
        entry = ap (λ q. s.page_table (frame_of q) j) (same k h.table) ∙ h.entry;
        present = h.present;
      };
    }

-- A page is put into a page table.
page-Grows :
    (s : Paging) (i j f : ℕ)
    → IsPaging s
    → is_present (s.page_table (frame_of (s.page_directory i)) j) ≡ false
    → Grows s (record s {
      page_table =
          set_at s.page_table
            (frame_of (s.page_directory i))
            (set_at (s.page_table (frame_of (s.page_directory i))) j (f + 3));
    })
page-Grows s i j f ok missing =
    let pd = s.page_directory in
    let t = frame_of (pd i) in
    let old = s.page_table t in
    let new = set_at old j (f + 3) in
    let kept : (k l pte : ℕ)
        → HasEntry s k l pte
        → set_at s.page_table t new (frame_of (pd k)) l ≡ pte =
      λ k l pte h. elim (Bool-cases (frame_of (pd k) == t)) [
        | inr ne ↦ ap (λ q. q l) (set_at-other s.page_table t (frame_of (pd k)) new ne) ∙ h.entry
        | inl e ↦
            let same : frame_of (pd k) ≡ t = ==→eq (frame_of (pd k)) t e in
            let was : old l ≡ pte = ap (λ q. s.page_table q l) (sym same) ∙ h.entry in
            let here : set_at s.page_table t new (frame_of (pd k)) ≡ new = rw e refl in
            elim (Bool-cases (l == j)) [
              | inr other ↦ ap (λ q. q l) here ∙ set_at-other old j l (f + 3) other ∙ was
              | inl at_j ↦
                  let q : l ≡ j = ==→eq l j at_j in
                  let clash : is_present pte ≡ false =
                    ap is_present (sym was ∙ ap old q) ∙ missing in
                  absurd (true_ne_false (sym h.present ∙ clash))
            ]
      ] in
    record {
      valid = record { tables = ok.tables; apart = ok.apart; aligned = ok.aligned };
      last = λ l. l;
      keeps = λ k l pte h. record {
        last = h.last;
        table = h.table;
        entry = kept k l pte h;
        present = h.present;
      };
    }

List-cases : (l : List ℕ) → (l ≡ []) ⊎ ((f : ℕ) × (free : List ℕ) × (l ≡ f ∷ free))
List-cases [] = inl refl
List-cases (f ∷ free) = inr (f, free, refl)

-- Where the directory has no table for an index, ensure_table takes the first free frame.
ensure_table-new :
    (s : Paging) (i f : ℕ) (free : List ℕ)
    → is_present (s.page_directory i) ≡ false
    → s.free ≡ f ∷ free
    → ensure_table s i
      ≡ some (record (zeroed s f free) { page_directory = set_at s.page_directory i (f + 3) })
unfolding ensure_table zalloc
ensure_table-new s i f free missing e = rw (missing, e) refl

ensure_table-old :
    (s : Paging) (i : ℕ) → is_present (s.page_directory i) ≡ true → ensure_table s i ≡ some s
unfolding ensure_table
ensure_table-old s i there = rw there refl

ensure_page-new :
    (s : Paging) (i j f : ℕ) (free : List ℕ)
    → is_present (s.page_table (frame_of (s.page_directory i)) j) ≡ false
    → s.free ≡ f ∷ free
    → ensure_page s i j
      ≡ some (record (zeroed s f free) {
        page_table =
            set_at
              (zeroed s f free).page_table
              (frame_of (s.page_directory i))
              (set_at ((zeroed s f free).page_table (frame_of (s.page_directory i))) j (f + 3));
      })
unfolding ensure_page zalloc
ensure_page-new s i j f free missing e = rw (missing, e) refl

ensure_page-old :
    (s : Paging) (i j : ℕ)
    → is_present (s.page_table (frame_of (s.page_directory i)) j) ≡ true
    → ensure_page s i j ≡ some s
unfolding ensure_page
ensure_page-old s i j there = rw there refl

-- What ensure_table makes of a state with a free frame, and how many frames it takes.
pub ensure_table-Grows :
    (s : Paging) (i : ℕ)
    → IsPaging s
    → 1 ≤ length s.free
    → (s' : Paging) × (ensure_table s i ≡ some s')
      × Grows s s'
      × (is_present (s'.page_directory i) ≡ true)
      × (length s.free ≤ length s'.free + 1)
ensure_table-Grows s i ok room = elim (Bool-cases (is_present (s.page_directory i))) [
  | inl there ↦ (s, ensure_table-old s i there, Grows-refl s ok, there, omega arith)
  | inr missing ↦ elim (List-cases s.free) [
    | inl none_left ↦ absurd (omega (arith, ap length none_left))
    | inr (f, free, e) ↦
        let z = zeroed s f free in
        let aligned : f % 4096 ≡ 0 = (subst (All (λ g. g % 4096 ≡ 0)) e ok.aligned).0 in
        let apart : All (λ g. g ≢ f) free = (subst Apart e ok.apart).0 in
        let first = zeroed-Grows s f free ok e in
        let s' : Paging = record z { page_directory = set_at s.page_directory i (f + 3) } in
        (
          s',
          ensure_table-new s i f free missing e,
          Grows-trans s z s' first (table-Grows z i f first.valid aligned apart missing),
          ap is_present (set_at-same s.page_directory i (f + 3)) ∙ (new_entry f aligned).0,
          omega (arith, ap length e),
        )
  ]
]

pub ensure_page-Grows :
    (s : Paging) (i j : ℕ)
    → IsPaging s
    → is_present (s.page_directory 1023) ≡ true
    → is_present (s.page_directory i) ≡ true
    → 1 ≤ length s.free
    → (s' : Paging) × (ensure_page s i j ≡ some s')
      × Grows s s'
      × ((pte : ℕ) × HasEntry s' i j pte)
      × (length s.free ≤ length s'.free + 1)
ensure_page-Grows s i j ok last table room =
    let t = frame_of (s.page_directory i) in
    elim (Bool-cases (is_present (s.page_table t j))) [
      | inl there ↦ (
        s,
        ensure_page-old s i j there,
        Grows-refl s ok,
        (s.page_table t j, record { last = last; table = table; entry = refl; present = there }),
        omega arith,
      )
      | inr missing ↦ elim (List-cases s.free) [
        | inl none_left ↦ absurd (omega (arith, ap length none_left))
        | inr (f, free, e) ↦
            let z = zeroed s f free in
            let aligned : f % 4096 ≡ 0 = (subst (All (λ g. g % 4096 ≡ 0)) e ok.aligned).0 in
            let first = zeroed-Grows s f free ok e in
            let not_f : t ≢ f = (subst (All (λ g. t ≢ g)) e (ok.tables i table)).0 in
            let same : z.page_table t ≡ s.page_table t =
              set_at-other s.page_table f t (λ k. 0) (ne→not-== t f not_f) in
            let missing' : is_present (z.page_table t j) ≡ false =
              ap (λ q. is_present (q j)) same ∙ missing in
            let new = set_at (z.page_table t) j (f + 3) in
            let s' : Paging = record z { page_table = set_at z.page_table t new } in
            (
              s',
              ensure_page-new s i j f free missing e,
              Grows-trans s z s' first (page-Grows z i j f first.valid missing'),
              (
                f + 3,
                record {
                  last = last;
                  table = table;
                  entry =
                      ap (λ q. q j) (set_at-same z.page_table t new)
                      ∙ set_at-same (z.page_table t) j (f + 3);
                  present = (new_entry f aligned).0;
                },
              ),
              omega (arith, ap length e),
            )
      ]
    ]
