-- ===== src/Drv/Returns.antt =====
-- kernel/drv.c: the loops of driver_init end with every driver started, where the dependencies have an
-- order.
use mathlib.Core.Path.{subst}
use mathlib.Core.Option.{some-injective}
use minima.Base.{
  ℕ, zero, suc, ◌+◌, ◌*◌, ◌<◌, ◌≡◌, ◌⊎◌, inl, inr, refl, sym, ap, ◌∙◌, false, none, some, List, [],
  ◌∷◌, arith, length, prepend, All, length-prepend, get_elem?, get_elem?-lt,
}
use minima.Drv.{Driver, Drivers, Init, init_loop, driver_init, give_up}
use minima.Drv.Order.{All-map, state, HasName, DepsFirst, IsNamed, driver_init-InOrder}
use minima.Drv.Names.{get_elem?-prepend, HasName-prepend, HasName-prepend_self}
use minima.Drv.Starts.{IsReady, Rests, Can, IsReady-exists, started-Can, postponed-Can, visit-Can}

-- Everything that was waiting has started, after what had started before.
pub record Started (l i f : List Driver) (s : Drivers) : Type 0 where
  pub waiting : s.waiting ≡ []
  pub failed : s.failed ≡ f
  pub names : (n : List ℕ) → HasName n i ⊎ HasName n l → HasName n s.initialized
  pub count : length s.initialized ≡ length i + length l

-- What holds of the rest after the first driver has started or has been postponed holds of all.
Started-first :
    (d : Driver) (l i f : List Driver) (s : Drivers)
    → Started l (prepend d i) f s
    → Started (d ∷ l) i f s
Started-first d l i f s all = record {
  waiting = all.waiting;
  failed = all.failed;
  names = λ n h. all.names n (named n h);
  count = omega (arith, all.count, length-prepend d i);
}
  where
    named : (n : List ℕ) → HasName n i ⊎ HasName n (d ∷ l) → HasName n (prepend d i) ⊎ HasName n l
    named n (inl here) = inl (HasName-prepend n d i here)
    named n (inr (inl same)) =
        inl (subst (λ m. HasName m (prepend d i)) same (HasName-prepend_self d i))
    named n (inr (inr there)) = inr there

postponed_first :
    (d : Driver) (l i f : List Driver) (s : Drivers)
    → Started (prepend d l) i f s
    → Started (d ∷ l) i f s
postponed_first d l i f s all = record {
  waiting = all.waiting;
  failed = all.failed;
  names = λ n h. all.names n (named n h);
  count = omega (arith, all.count, length-prepend d l);
}
  where
    named : (n : List ℕ) → HasName n i ⊎ HasName n (d ∷ l) → HasName n i ⊎ HasName n (prepend d l)
    named n (inl here) = inl here
    named n (inr (inl same)) =
        inr (subst (λ m. HasName m (prepend d l)) same (HasName-prepend_self d l))
    named n (inr (inr there)) = inr (HasName-prepend n d l there)

-- Where the first driver is not ready, the ready one comes later.
comes_later :
    (d e : Driver) (l i : List Driver) (p : ℕ)
    → get_elem? (d ∷ l) p ≡ some e
    → IsReady i e
    → (IsReady i d → ⊥)
    → (q : ℕ) × (p ≡ suc q) × (get_elem? l q ≡ some e)
comes_later d e l i zero at_p ready unready =
    absurd (unready (subst (IsReady i) (sym (some-injective _ _ at_p)) ready))
comes_later d e l i (suc q) at_p ready unready = (q, refl, at_p)

no_driver : (q : ℕ) (e : Driver) → get_elem? {A = Driver} [] q ≡ some e → ⊥
no_driver q e h = cc

next_phase : (n q p fuel : ℕ) → q < n → suc n * suc n + p < suc fuel → n * n + q < fuel
next_phase n q p fuel low room = grind arith

all-Started : (i f : List Driver) → Started [] i f (state [] i f)
all-Started i f = record {
  waiting = refl;
  failed = refl;
  names = λ n h. elim h [ inl here ↦ here | inr there ↦ absurd there ];
  count = omega arith;
}

module _ (rank : List ℕ → ℕ) where
  loop-Started :
      (fuel p : ℕ) (l i f : List Driver) (e : Driver)
      → Can rank l i
      → get_elem? l p ≡ some e
      → IsReady i e
      → length l * length l + p < fuel
      → (s : Drivers) × (init_loop fuel (state l i f) ≡ Init.done s) × Started l i f s
  unfolding init_loop
  loop-Started zero p l i f e can at_p ready room = absurd (omega arith)
  loop-Started (suc fuel) p [] i f e can at_p ready room = cc
  loop-Started (suc fuel) p (d ∷ []) i f e can at_p ready room =
      elim (visit-Can rank d [] i f can) [
        | inl started ↦ (
          state [] (prepend d i) f,
          ap (λ o. elim o [ none ↦ Init.faults | some s ↦ Init.done s ]) started,
          Started-first d [] i f (state [] (prepend d i) f) (all-Started (prepend d i) f),
        )
        | inr (postponed, unready) ↦
            let (q, e', at_q) = comes_later d e [] i p at_p ready unready in
            absurd (no_driver q e at_q)
      ]
  loop-Started (suc fuel) p (d ∷ x ∷ l) i f e can at_p ready room =
      elim (visit-Can rank d (x ∷ l) i f can) [
        | inl started ↦
            let can' = started-Can rank d (x ∷ l) i can in
            let (q, e', at_q, ready') =
              IsReady-exists rank (suc (rank x.name)) (x ∷ l) (prepend d i) 0 x can'.rests refl
                (omega arith) in
            let low = get_elem?-lt (x ∷ l) q e' at_q in
            let (s, runs, all) =
              loop-Started fuel q (x ∷ l) (prepend d i) f e' can' at_q ready'
                (next_phase (length (x ∷ l)) q p fuel low room) in
            (
              s,
              ap (λ o. elim o [ none ↦ Init.faults | some s ↦ init_loop fuel s ]) started ∙ runs,
              Started-first d (x ∷ l) i f s all,
            )
        | inr (postponed, unready) ↦
            let (q, later, at_q) = comes_later d e (x ∷ l) i p at_p ready unready in
            let same = length-prepend d (x ∷ l) in
            let room' : length (prepend d (x ∷ l)) * length (prepend d (x ∷ l)) + q < fuel =
              rw same (omega (arith, later, room)) in
            let (s, runs, all) =
              loop-Started fuel q (prepend d (x ∷ l)) i f e (postponed-Can rank d (x ∷ l) i can)
                (get_elem?-prepend d (x ∷ l) q e at_q) ready room' in
            (
              s,
              ap (λ o. elim o [ none ↦ Init.faults | some s ↦ init_loop fuel s ]) postponed ∙ runs,
              postponed_first d (x ∷ l) i f s all,
            )
      ]

  from_none :
      (fuel : ℕ) (l : List Driver)
      → Can rank l []
      → length l * suc (length l) < fuel
      → (s : Drivers) × (init_loop fuel (state l [] []) ≡ Init.done s) × Started l [] [] s
  unfolding init_loop
  from_none zero l can room = absurd (omega arith)
  from_none (suc fuel) [] can room = (state [] [] [], refl, all-Started [] [])
  from_none (suc fuel) (d ∷ l) can room =
      let (q, e, at_q, ready) =
        IsReady-exists rank (suc (rank d.name)) (d ∷ l) [] 0 d can.rests refl (omega arith) in
      let low = get_elem?-lt (d ∷ l) q e at_q in
      loop-Started (suc fuel) q (d ∷ l) [] [] e can at_q ready (omega (arith, low, room))

-- Where the names are strings, no driver is on demand, every probe returns 0, and everything that a
-- driver depends on is the name of a waiting driver of lower rank, driver_init returns, within one
-- round more than the product of the number of drivers and the next number: all of them have
-- started, each after drivers with the names of everything that it depends on, and none has failed.
pub driver_init-Started :
    (rank : List ℕ → ℕ) (drivers : List Driver) (fuel : ℕ)
    → All IsNamed drivers
    → All (λ d. d.on_demand ≡ false) drivers
    → All (λ d. d.probe ≡ 0) drivers
    → All (λ d. All (λ n. HasName n drivers × (rank n < rank d.name)) d.deps) drivers
    → length drivers * suc (length drivers) < fuel
    → (s : Drivers) × (driver_init fuel
          (record { waiting = drivers; initialized = []; failed = [] })
        ≡ Init.done s)
      × DepsFirst [] s.initialized
      × ((n : List ℕ) → HasName n drivers → HasName n s.initialized)
      × (length s.initialized ≡ length drivers)
      × (s.failed ≡ [])
unfolding driver_init give_up
driver_init-Started rank drivers fuel named idle fine deps room =
    let can : Can rank drivers [] = record {
      named = named;
      named_i = tt;
      idle = idle;
      fine = fine;
      rests =
          All-map _ (Rests rank drivers []) drivers (λ d h. All-map _ _ d.deps (λ n r. inr r) h)
            deps;
    } in
    let (s, runs, all) = from_none rank fuel drivers can room in
    let s' : Drivers = record s { waiting = []; failed = give_up s.waiting s.failed } in
    let returns : driver_init fuel (state drivers [] []) ≡ Init.done s' =
      ap
        (λ r. elim r [
          | Init.done s ↦ Init.done (record s { waiting = []; failed = give_up s.waiting s.failed })
          | Init.faults ↦ Init.faults
          | Init.unfinished ↦ Init.unfinished
        ])
        runs in
    let ordered = driver_init-InOrder fuel drivers [] s' named returns in
    (
      s',
      returns,
      ordered.0,
      λ n h. all.names n (inr h),
      all.count ∙ omega arith,
      ap (λ w. give_up w s.failed) all.waiting ∙ all.failed,
    )
