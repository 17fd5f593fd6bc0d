-- ===== src/Drv/Names.antt =====
-- kernel/drv.c: finding a driver by its name in a list.
use mathlib.Core.Path.{subst}
use mathlib.Core.Option.{some-injective}
use minima.Base.{
  ℕ, zero, suc, ◌≡◌, inl, inr, refl, sym, ap, false, some, List, [], ◌∷◌, ◌==◌, prepend, All,
  Bool-cases, not-==→ne, get_elem?,
}
use minima.Utils.{strcmp}
use minima.Utils.Compare.{IsChar, strcmp-zero}
use minima.Drv.{Driver, find, want}
use minima.Drv.Order.{HasName, IsNamed}

pub HasName-prepend :
    (n : List ℕ) (d : Driver) (l : List Driver) → HasName n l → HasName n (prepend d l)
HasName-prepend n d [] h = absurd h
HasName-prepend n d (e ∷ l) (inl q) = inl q
HasName-prepend n d (e ∷ l) (inr h) = inr (HasName-prepend n d l h)

pub HasName-prepend_self : (d : Driver) (l : List Driver) → HasName d.name (prepend d l)
HasName-prepend_self d [] = inl refl
HasName-prepend_self d (e ∷ l) = inr (HasName-prepend_self d l)

pub other_name :
    (d : Driver) (n : List ℕ)
    → IsNamed d
    → All IsChar n
    → (strcmp d.name n == 0) ≡ false
    → d.name ≡ n
    → ⊥
other_name d n named c other e =
    not-==→ne (strcmp d.name n) 0 other ((strcmp-zero d.name n named.0 c).1 e)

pub HasName-found :
    (n : List ℕ) (l : List Driver)
    → All IsChar n
    → All IsNamed l
    → HasName n l
    → (d : Driver) × (find n l ≡ some d)
unfolding find
HasName-found n [] c all h = absurd h
HasName-found n (e ∷ l) c all h = elim (Bool-cases (strcmp e.name n == 0)) [
  | inl same ↦ (e, rw same refl)
  | inr other ↦ elim h [
    | inl q ↦ absurd (other_name e n all.0 c other q)
    | inr h' ↦ let (d, found) = HasName-found n l c all.1 h' in (d, rw other found)
  ]
]

-- A driver that is not on demand stays as it is when it is wanted.
wanted_same : (d : Driver) → d.on_demand ≡ false → record d { on_demand = false } ≡ d
wanted_same d e = ap (λ b. record d { on_demand = b }) (sym e)

pub want-same :
    (n : List ℕ) (l : List Driver)
    → All IsChar n
    → All IsNamed l
    → All (λ d. d.on_demand ≡ false) l
    → HasName n l
    → want n l ≡ some l
unfolding want
want-same n [] c all idle h = absurd h
want-same n (e ∷ l) c all idle h = elim (Bool-cases (strcmp e.name n == 0)) [
  | inl same ↦ rw same (ap (λ d. some (d ∷ l)) (wanted_same e idle.0))
  | inr other ↦ elim h [
    | inl q ↦ absurd (other_name e n all.0 c other q)
    | inr h' ↦ rw (other, want-same n l c all.1 idle.1 h') refl
  ]
]

pub HasName-get_elem? :
    (n : List ℕ) (l : List Driver)
    → HasName n l
    → (p : ℕ) × (d : Driver) × (get_elem? l p ≡ some d) × (d.name ≡ n)
HasName-get_elem? n [] h = absurd h
HasName-get_elem? n (d ∷ l) (inl e) = (0, d, refl, e)
HasName-get_elem? n (d ∷ l) (inr h) =
    let (p, e, at_p, same) = HasName-get_elem? n l h in (suc p, e, at_p, same)

pub get_elem?-prepend :
    (d : Driver) (l : List Driver) (p : ℕ) (e : Driver)
    → get_elem? l p ≡ some e
    → get_elem? (prepend d l) p ≡ some e
get_elem?-prepend d [] p e h = cc
get_elem?-prepend d (x ∷ l) zero e h = h
get_elem?-prepend d (x ∷ l) (suc p) e h = get_elem?-prepend d l p e h

pub All-get_elem? :
    (P : Driver → Type 0) (l : List Driver) (p : ℕ) (d : Driver)
    → get_elem? l p ≡ some d
    → All P l
    → P d
All-get_elem? P [] p d h all = cc
All-get_elem? P (x ∷ l) zero d h all = subst P (some-injective _ _ h) all.0
All-get_elem? P (x ∷ l) (suc p) d h all = All-get_elem? P l p d h all.1
