-- ===== src/Drv/Starts.antt =====
-- kernel/drv.c: where the dependencies have an order, driver_init returns with every driver started.
use mathlib.Core.Path.{subst}
use minima.Base.{
  ℕ, zero, suc, ◌<◌, ◌≡◌, ◌⊎◌, inl, inr, refl, sym, ap, ◌∙◌, Bool, true, false, Option, none, some,
  List, [], ◌∷◌, ◌==◌, arith, if◌then◌else◌, prepend, All, All-prepend, Bool-cases, Option-cases,
  get_elem?,
}
use minima.Utils.Compare.{IsChar}
use minima.Drv.{Driver, check, visit_with, find, want, deps_loaded, start, visit}
use minima.Drv.Order.{All-map, state, HasName, IsNamed}
use minima.Drv.Names.{
  HasName-prepend, HasName-prepend_self, HasName-found, want-same, HasName-get_elem?, All-get_elem?,
}

-- All that a driver depends on has started.
abbrev pub IsReady : List Driver → Driver → Type 0
IsReady i d = All (λ n. HasName n i) d.deps

-- What `deps_loaded` answers where every dependency has started or waits, not on demand.
module _ (l i f : List Driver) (named : All IsNamed l) (named_i : All IsNamed i)
    (idle : All (λ d. d.on_demand ≡ false) l) where
  deps_loaded-same :
      (deps : List (List ℕ))
      → All (λ n. All IsChar n) deps
      → All (λ n. HasName n i ⊎ HasName n l) deps
      → (b : Bool) × (deps_loaded deps (state l i f) ≡ some (b, state l i f))
        × (All (λ n. HasName n i) deps → b ≡ true)
  unfolding deps_loaded
  deps_loaded-same [] c all = (true, refl, λ h. refl)
  deps_loaded-same (n ∷ deps) c all =
      let (b, rest, ready) = deps_loaded-same deps c.1 all.1 in
      elim (Option-cases (find n i)) [
        | inr (d, e) ↦ (
          b,
          ap (λ o. check o (want n l) (state l i f) (deps_loaded deps (state l i f))) e ∙ rest,
          λ h. ready h.1,
        )
        | inl e ↦ elim all.0 [
          | inl here ↦
              let (d, q) = HasName-found n i c.0 named_i here in absurd (none_some d (sym e ∙ q))
          | inr there ↦ (
            false,
            ap (λ o. check o (want n l) (state l i f) (deps_loaded deps (state l i f))) e
                ∙ ap (λ o. check none o (state l i f) (deps_loaded deps (state l i f)))
                    (want-same n l c.0 named idle there),
            λ h. let (d, q) = HasName-found n i c.0 named_i h.0 in absurd (none_some d (sym e ∙ q)),
          )
        ]
      ]
    where
      none_some : (d : Driver) → ◌≡◌ {A = Option Driver} none (some d) → ⊥
      none_some d e = cc

module _ (rank : List ℕ → ℕ) where
  -- What a driver depends on has started, or waits and ranks lower.
  abbrev pub Rests : List Driver → List Driver → Driver → Type 0
  Rests l i d = All (λ n. HasName n i ⊎ (HasName n l × (rank n < rank d.name))) d.deps

  pub record Can (l i : List Driver) : Type 0 where
    pub named : All IsNamed l
    pub named_i : All IsNamed i
    pub idle : All (λ d. d.on_demand ≡ false) l
    pub fine : All (λ d. d.probe ≡ 0) l
    pub rests : All (Rests l i) l

  -- Either all of them have started, or one of them waits.
  first_missing :
      (l i : List Driver) (r : ℕ) (deps : List (List ℕ))
      → All (λ n. HasName n i ⊎ (HasName n l × (rank n < r))) deps
      → All (λ n. HasName n i) deps ⊎ ((n : List ℕ) × HasName n l × (rank n < r))
  first_missing l i r [] all = inl tt
  first_missing l i r (n ∷ deps) all = elim all.0 [
    | inr there ↦ inr (n, there.0, there.1)
    | inl here ↦ elim (first_missing l i r deps all.1) [
      | inl rest ↦ inl (here, rest)
      | inr missing ↦ inr missing
    ]
  ]

  pub IsReady-exists :
      (k : ℕ) (l i : List Driver) (p : ℕ) (d : Driver)
      → All (Rests l i) l
      → get_elem? l p ≡ some d
      → rank d.name < k
      → (q : ℕ) × (e : Driver) × (get_elem? l q ≡ some e) × IsReady i e
  IsReady-exists zero l i p d rests at_p low = absurd (omega arith)
  IsReady-exists (suc k) l i p d rests at_p low =
      elim (first_missing l i (rank d.name) d.deps (All-get_elem? (Rests l i) l p d at_p rests)) [
        | inl ready ↦ (p, d, at_p, ready)
        | inr (n, there, lower) ↦
            let (q, e, at_q, same) = HasName-get_elem? n l there in
            let rank_e : rank e.name ≡ rank n = ap rank same in
            IsReady-exists k l i q e rests at_q (omega (arith, rank_e, lower, low))
      ]

  -- After the first driver has started, or has been postponed.
  pub started-Can : (d : Driver) (l i : List Driver) → Can (d ∷ l) i → Can l (prepend d i)
  started-Can d l i can = record {
    named = can.named.1;
    named_i = All-prepend IsNamed d i can.named.0 can.named_i;
    idle = can.idle.1;
    fine = can.fine.1;
    rests =
        All-map (Rests (d ∷ l) i) (Rests l (prepend d i)) l
          (λ e h. All-map _ _ e.deps (λ n. moved n (rank e.name)) h) can.rests.1;
  }
    where
      moved :
          (n : List ℕ) (r : ℕ)
          → HasName n i ⊎ (HasName n (d ∷ l) × (rank n < r))
          → HasName n (prepend d i) ⊎ (HasName n l × (rank n < r))
      moved n r (inl here) = inl (HasName-prepend n d i here)
      moved n r (inr (inl same, low)) =
          inl (subst (λ m. HasName m (prepend d i)) same (HasName-prepend_self d i))
      moved n r (inr (inr there, low)) = inr (there, low)

  pub postponed-Can : (d : Driver) (l i : List Driver) → Can (d ∷ l) i → Can (prepend d l) i
  postponed-Can d l i can = record {
    named = All-prepend IsNamed d l can.named.0 can.named.1;
    named_i = can.named_i;
    idle = All-prepend (λ (x : Driver). x.on_demand ≡ false) d l can.idle.0 can.idle.1;
    fine = All-prepend (λ (x : Driver). x.probe ≡ 0) d l can.fine.0 can.fine.1;
    rests =
        All-prepend (Rests (prepend d l) i) d l (moved_all d can.rests.0)
          (All-map (Rests (d ∷ l) i) (Rests (prepend d l) i) l moved_all can.rests.1);
  }
    where
      moved :
          (n : List ℕ) (r : ℕ)
          → HasName n i ⊎ (HasName n (d ∷ l) × (rank n < r))
          → HasName n i ⊎ (HasName n (prepend d l) × (rank n < r))
      moved n r (inl here) = inl here
      moved n r (inr (inl same, low)) =
          inr (subst (λ m. HasName m (prepend d l)) same (HasName-prepend_self d l), low)
      moved n r (inr (inr there, low)) = inr (HasName-prepend n d l there, low)

      moved_all : (e : Driver) → Rests (d ∷ l) i e → Rests (prepend d l) i e
      moved_all e h = All-map _ _ e.deps (λ n. moved n (rank e.name)) h

  pub visit-Can :
      (d : Driver) (l i f : List Driver)
      → Can (d ∷ l) i
      → (visit d (state l i f) ≡ some (state l (prepend d i) f))
        ⊎ ((visit d (state l i f) ≡ some (state (prepend d l) i f)) × (IsReady i d → ⊥))
  unfolding visit start
  visit-Can d l i f can =
      let (b, loaded, ready) =
        deps_loaded-same l i f can.named.1 can.named_i can.idle.1 d.deps can.named.0.1
          (All-map _ _ d.deps (λ n. elsewhere n) can.rests.0) in
      let at_demand : visit d (state l i f)
          ≡ visit_with d (state l i f) false (some (b, state l i f)) =
        ap (λ w. visit_with d (state l i f) w (deps_loaded d.deps (state l i f))) can.idle.0
        ∙ ap (visit_with d (state l i f) false) loaded in
      elim (Bool-cases b) [
        | inl t ↦ inl (
            at_demand
            ∙ ap (λ c. visit_with d (state l i f) false (some (c, state l i f))) t
            ∙ ap
                (λ (r : Bool).
                  some (if r then state l (prepend d i) f else state l i (prepend d f)))
                (is_zero can.fine.0))
        | inr t ↦ inr (
          at_demand ∙ ap (λ c. visit_with d (state l i f) false (some (c, state l i f))) t,
          λ r. absurd (clash (sym t ∙ ready r)),
        )
      ]
    where
      clash : false ≡ true → ⊥
      clash e = cc

      is_zero : {k : ℕ} → k ≡ 0 → (k == 0) ≡ true
      is_zero e = ground arith

      elsewhere :
          (n : List ℕ)
          → HasName n i ⊎ (HasName n (d ∷ l) × (rank n < rank d.name))
          → HasName n i ⊎ HasName n l
      elsewhere n (inl here) = inl here
      elsewhere n (inr (inl same, low)) =
          let r : rank d.name ≡ rank n = ap rank same in absurd (omega (arith, r, low))
      elsewhere n (inr (inr there, low)) = inr there
