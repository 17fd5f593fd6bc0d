-- ===== src/Drv/Order.antt =====
-- kernel/drv.c: a driver starts after the drivers that it depends on.
use mathlib.Core.Path.{subst}
use minima.Base.{
  ℕ, zero, suc, ◌≡◌, ◌⊎◌, inl, inr, refl, sym, ap, Bool, true, false, Option, none, some, List, [],
  ◌∷◌, ◌++◌, ◌==◌, prepend, All, All-prepend, Bool-cases, Option-cases, ==→eq,
}
use minima.Utils.{strcmp}
use minima.Utils.Compare.{IsChar, strcmp-zero}
use minima.Drv.{
  Driver, Drivers, Init, check, visit_with, find, want, deps_loaded, postpone, start, visit,
  init_loop, driver_init, give_up,
}

-- one of the drivers has the name
abbrev pub HasName : List ℕ → List Driver → Type 0
HasName name [] = ⊥
HasName name (d ∷ l) = (d.name ≡ name) ⊎ HasName name l

-- Each driver comes after those that it depends on, which may also stand in a first list.
abbrev pub DepsFirst : List Driver → List Driver → Type 0
DepsFirst before [] = Unit
DepsFirst before (d ∷ l) = All (λ n. HasName n before) d.deps × DepsFirst (prepend d before) l

-- Names are strings.
abbrev pub IsNamed : Driver → Type 0
IsNamed d = All IsChar d.name × All (λ n. All IsChar n) d.deps

-- The drivers are named, and those that have started did so in order and without an error.
pub record InOrder (s : Drivers) : Type 0 where
  pub waiting : All IsNamed s.waiting
  pub initialized : All IsNamed s.initialized
  pub deps : DepsFirst [] s.initialized
  pub started : All (λ d. d.probe ≡ 0) s.initialized

prepend-append : (d : Driver) (before l : List Driver) → prepend d before ++ l ≡ before ++ (d ∷ l)
prepend-append d [] l = refl
prepend-append d (e ∷ before) l = ap (λ t. e ∷ t) (prepend-append d before l)

HasName-append_nil : (n : List ℕ) (l : List Driver) → HasName n (l ++ []) → HasName n l
HasName-append_nil n [] h = h
HasName-append_nil n (d ∷ l) (inl e) = inl e
HasName-append_nil n (d ∷ l) (inr h) = inr (HasName-append_nil n l h)

pub All-map :
    {A : Type 0} (P Q : A → Type 0) (l : List A) → ((a : A) → P a → Q a) → All P l → All Q l
All-map P Q [] f h = tt
All-map P Q (a ∷ l) f h = (f a h.0, All-map P Q l f h.1)

DepsFirst-prepend :
    (d : Driver) (before l : List Driver)
    → DepsFirst before l
    → All (λ n. HasName n (before ++ l)) d.deps
    → DepsFirst before (prepend d l)
DepsFirst-prepend d before [] h all =
    (All-map _ _ d.deps (λ n. HasName-append_nil n before) all, tt)
DepsFirst-prepend d before (e ∷ l) h all = (
  h.0,
  DepsFirst-prepend d (prepend e before) l h.1
      (subst (λ x. All (λ n. HasName n x) d.deps) (sym (prepend-append e before l)) all),
)

find-HasName :
    (n : List ℕ) (l : List Driver) (d : Driver)
    → All IsChar n
    → All IsNamed l
    → find n l ≡ some d
    → HasName n l
unfolding find
find-HasName n [] d c all h = cc
find-HasName n (e ∷ l) d c all h = elim (Bool-cases (strcmp e.name n == 0)) [
  | inl same ↦ inl ((strcmp-zero e.name n all.0.0 c).0 (==→eq _ 0 same))
  | inr other ↦ inr (find-HasName n l d c all.1 (rw (other) at h))
]

-- Whatever an option holds has the property.
abbrev Holds : {A : Type 0} → (A → Type 0) → Option A → Type 0
Holds P none = Unit
Holds P (some a) = P a

Holds-at : {A : Type 0} (P : A → Type 0) (o : Option A) (a : A) → o ≡ some a → Holds P o → P a
Holds-at P o a e h = subst (Holds P) e h

want-IsNamed : (n : List ℕ) (l : List Driver) → All IsNamed l → Holds (All IsNamed) (want n l)
unfolding want
want-IsNamed n [] all = tt
want-IsNamed n (d ∷ l) all = elim (Bool-cases (strcmp d.name n == 0)) [
  | inl same ↦ rw same (all.0, all.1)
  | inr other ↦ elim (Option-cases (want n l)) [
    | inl e ↦ rw (other, e) tt
    | inr (l', e) ↦
        rw (other, e) (all.0, Holds-at (All IsNamed) (want n l) l' e (want-IsNamed n l all.1))
  ]
]

-- What `deps_loaded` leaves, and what its answer means.
abbrev Loaded : List (List ℕ) → Drivers → Bool × Drivers → Type 0
Loaded deps s (loaded, s') =
    InOrder s'
    × (s'.initialized ≡ s.initialized)
    × (loaded ≡ true → All (λ n. HasName n s.initialized) deps)

check-Loaded :
    (n : List ℕ) (deps : List (List ℕ)) (s : Drivers) (o : Option Driver) (w : Option (List Driver))
    (rest : Option (Bool × Drivers))
    → All IsChar n
    → InOrder s
    → find n s.initialized ≡ o
    → want n s.waiting ≡ w
    → Holds (Loaded deps s) rest
    → Holds (Loaded (n ∷ deps) s) (check o w s rest)
check-Loaded n deps s (some d) w none c ok e q h = tt
check-Loaded n deps s (some d) w (some (loaded, s')) c ok e q h =
    (h.0, h.1, λ t. (find-HasName n s.initialized d c ok.initialized e, h.2 t))
check-Loaded n deps s none none rest c ok e q h = tt
check-Loaded n deps s none (some w) rest c ok e q h = (
  record {
    waiting = Holds-at (All IsNamed) (want n s.waiting) w q (want-IsNamed n s.waiting ok.waiting);
    initialized = ok.initialized;
    deps = ok.deps;
    started = ok.started;
  },
  refl,
  λ t. absurd (false_ne_true t),
)
  where
    false_ne_true : ◌≡◌ {A = Bool} false true → ⊥
    false_ne_true t = cc

deps_loaded-Loaded :
    (deps : List (List ℕ)) (s : Drivers)
    → All (λ n. All IsChar n) deps
    → InOrder s
    → Holds (Loaded deps s) (deps_loaded deps s)
unfolding deps_loaded
deps_loaded-Loaded [] s c ok = (ok, refl, λ e. tt)
deps_loaded-Loaded (n ∷ deps) s c ok =
    check-Loaded n deps s (find n s.initialized) (want n s.waiting) (deps_loaded deps s) c.0 ok refl
      refl (deps_loaded-Loaded deps s c.1 ok)

postpone-InOrder : (d : Driver) (s : Drivers) → IsNamed d → InOrder s → InOrder (postpone d s)
postpone-InOrder d s named ok = record {
  waiting = All-prepend IsNamed d s.waiting named ok.waiting;
  initialized = ok.initialized;
  deps = ok.deps;
  started = ok.started;
}

start-InOrder :
    (d : Driver) (s : Drivers)
    → IsNamed d
    → All (λ n. HasName n s.initialized) d.deps
    → InOrder s
    → InOrder (start d s)
unfolding start
start-InOrder d s named all ok = elim (Bool-cases (d.probe == 0)) [
  | inl fine ↦ rw fine (record {
    waiting = ok.waiting;
    initialized = All-prepend IsNamed d s.initialized named ok.initialized;
    deps = DepsFirst-prepend d [] s.initialized ok.deps all;
    started = All-prepend (λ (x : Driver). x.probe ≡ 0) d s.initialized (==→eq _ 0 fine) ok.started;
  })
  | inr bad ↦ rw bad (record {
    waiting = ok.waiting;
    initialized = ok.initialized;
    deps = ok.deps;
    started = ok.started;
  })
]

visit_with-InOrder :
    (d : Driver) (s : Drivers) (wanted : Bool) (o : Option (Bool × Drivers))
    → IsNamed d
    → InOrder s
    → Holds (Loaded d.deps s) o
    → Holds InOrder (visit_with d s wanted o)
visit_with-InOrder d s true o named ok h = postpone-InOrder d s named ok
visit_with-InOrder d s false none named ok h = tt
visit_with-InOrder d s false (some (false, s')) named ok h = postpone-InOrder d s' named h.0
visit_with-InOrder d s false (some (true, s')) named ok h =
    start-InOrder d s' named (subst (λ l. All (λ n. HasName n l) d.deps) (sym h.1) (h.2 refl)) h.0

visit-InOrder : (d : Driver) (s : Drivers) → IsNamed d → InOrder s → Holds InOrder (visit d s)
unfolding visit
visit-InOrder d s named ok =
    visit_with-InOrder d s d.on_demand (deps_loaded d.deps s) named ok
      (deps_loaded-Loaded d.deps s named.1 ok)

abbrev pub state : List Driver → List Driver → List Driver → Drivers
state waiting initialized failed = record {
  waiting = waiting;
  initialized = initialized;
  failed = failed;
}

abbrev Ends : Init → Type 0
Ends (Init.done s) = InOrder s
Ends Init.faults = Unit
Ends Init.unfinished = Unit

taken : (d : Driver) (l i f : List Driver) → InOrder (state (d ∷ l) i f) → InOrder (state l i f)
taken d l i f ok = record {
  waiting = ok.waiting.1;
  initialized = ok.initialized;
  deps = ok.deps;
  started = ok.started;
}

abbrev Good : Init → Type 0
Good (Init.done s) = DepsFirst [] s.initialized × All (λ d. d.probe ≡ 0) s.initialized
Good r = Unit

after_visit :
    (next : Drivers → Init) (o : Option Drivers)
    → ((s : Drivers) → InOrder s → Ends (next s))
    → Holds InOrder o
    → Ends (elim o [ none ↦ Init.faults | some s ↦ next s ])
after_visit next none h ok = tt
after_visit next (some s) h ok = h s ok

loop-InOrder :
    (fuel : ℕ) (l i f : List Driver) → InOrder (state l i f) → Ends (init_loop fuel (state l i f))
unfolding init_loop
loop-InOrder zero l i f ok = tt
loop-InOrder (suc fuel) [] i f ok = ok
loop-InOrder (suc fuel) (d ∷ []) i f ok =
    after_visit Init.done (visit d (state [] i f)) (λ s h. h)
      (visit-InOrder d (state [] i f) ok.waiting.0 (taken d [] i f ok))
loop-InOrder (suc fuel) (d ∷ e ∷ l) i f ok =
    after_visit (init_loop fuel) (visit d (state (e ∷ l) i f))
      (λ s h. loop-InOrder fuel s.waiting s.initialized s.failed h)
      (visit-InOrder d (state (e ∷ l) i f) ok.waiting.0 (taken d (e ∷ l) i f ok))

pub driver_init-InOrder :
    (fuel : ℕ) (waiting failed : List Driver) (s : Drivers)
    → All IsNamed waiting
    → driver_init fuel (record { waiting = waiting; initialized = []; failed = failed })
      ≡ Init.done s
    → DepsFirst [] s.initialized × All (λ d. d.probe ≡ 0) s.initialized
unfolding driver_init
driver_init-InOrder fuel waiting failed s named e =
    let ok : InOrder (state waiting [] failed) = record {
      waiting = named;
      initialized = tt;
      deps = tt;
      started = tt;
    } in
    let all =
      given_up (init_loop fuel (state waiting [] failed)) s e
        (loop-InOrder fuel waiting [] failed ok) in
    all
  where
    given_up :
        (r : Init) (s : Drivers)
        → elim r [
          | Init.done s' ↦
              Init.done (record s' { waiting = []; failed = give_up s'.waiting s'.failed })
          | Init.faults ↦ Init.faults
          | Init.unfinished ↦ Init.unfinished
        ]
          ≡ Init.done s
        → Ends r
        → DepsFirst [] s.initialized × All (λ d. d.probe ≡ 0) s.initialized
    given_up (Init.done s') s e ok = subst (λ r. Good r) e (ok.deps, ok.started)
    given_up Init.faults s e ok = cc
    given_up Init.unfinished s e ok = cc
