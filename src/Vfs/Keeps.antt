-- ===== src/Vfs/Keeps.antt =====
-- kernel/fs/vfs.c, `vfs_lookup`: the node of a mount point is changed for a lookup of ".." in the
-- parent file system, and changed back.
use mathlib.Core.Path.{subst}
use minima.Base.{
  ℕ, zero, suc, ◌≡◌, refl, sym, ap, ◌∙◌, not, ◌&&◌, Option, none, some, List, ◌==◌, if◌then◌else◌,
  Bool-cases, inl, inr, ==_refl, ==→eq,
}
use minima.Utils.{strcmp}
use minima.Vfs.{
  World, VfsNode, VfsOps, Result, and_then, cross, restore, or_cwd, vfs_lookup, vfs_get_cwd,
  set_node, set_at, is_dir, is_mountpoint, dotdot, enotsup, enotdir,
}

-- A patched node, seen through a table that is as the patch left it, and patched back.
patch-back :
    (f g : ℕ → VfsNode) (i fs : ℕ)
    → g ≡ set_at f i (record (f i) { fs = fs })
    → set_at g i (record (g i) { fs = (f i).fs }) ≡ f
patch-back f g i fs e =
    let at_i : g i ≡ record (f i) { fs = fs } = ap (λ h. h i) e ∙ rw (==_refl i) refl in
    let own_fs : VfsNode → VfsNode = λ n. record n { fs = (f i).fs } in
    let back : own_fs (g i) ≡ f i = ap own_fs at_i in
    let same : (j : ℕ) → set_at g i (record (g i) { fs = (f i).fs }) j ≡ f j = λ j.
      elim (Bool-cases (j == i)) [
        | inl q ↦ rw q (back ∙ ap f (sym (==→eq j i q)))
        | inr ne ↦ rw ne (ap (λ h. h j) e ∙ rw ne refl)
      ] in
    λ k j. same j k

module _ {S : Type 0} (ops : ℕ → VfsOps S) where
  -- The lookups of the file systems leave the nodes that are there as they are.
  abbrev pub KeepNodes : Type 0
  KeepNodes =
      (i : ℕ) (f : World S → ℕ → List ℕ → World S × Result ℕ)
      → (ops i).lookup ≡ some f
      → (w : World S) (dir : ℕ) (name : List ℕ) → (f w dir name).0.nodes ≡ w.nodes

  -- A call that returns, with an error or without.
  abbrev pub Returns : {A : Type 0} → Result A → Type 0
  Returns (Result.done a) = Unit
  Returns (Result.error e) = Unit
  Returns Result.panics = ⊥
  Returns Result.out_of_fuel = ⊥

  and_then-nodes :
      {A B : Type 0} (r : World S × Result A) (f : World S → A → World S × Result B)
      → ((w : World S) (a : A) → Returns (f w a).1 → (f w a).0.nodes ≡ w.nodes)
      → Returns (and_then r f).1
      → (and_then r f).0.nodes ≡ r.0.nodes
  and_then-nodes (w, Result.done a) f h ends = h w a ends
  and_then-nodes (w, Result.error e) f h ends = refl
  and_then-nodes (w, Result.panics) f h ends = refl
  and_then-nodes (w, Result.out_of_fuel) f h ends = refl

  restore-nodes :
      (w : World S) (node fs : ℕ) (r : World S × Result ℕ)
      → (Returns r.1 → r.0.nodes ≡ set_at w.nodes node (record (w.nodes node) { fs = fs }))
      → Returns (restore ops node (w.nodes node).fs r).1
      → (restore ops node (w.nodes node).fs r).0.nodes ≡ w.nodes
  restore-nodes w node fs (w', Result.done a) h ends = patch-back w.nodes w'.nodes node fs (h tt)
  restore-nodes w node fs (w', Result.error e) h ends = patch-back w.nodes w'.nodes node fs (h tt)
  restore-nodes w node fs (w', Result.panics) h ends = absurd ends
  restore-nodes w node fs (w', Result.out_of_fuel) h ends = absurd ends

  cross-nodes :
      (up : World S → ℕ → List ℕ → World S × Result ℕ) (name : List ℕ)
      → ((w : World S) (dir : ℕ) (n : List ℕ)
          → Returns (up w dir n).1
          → (up w dir n).0.nodes ≡ w.nodes)
      → (w : World S) (node : ℕ) → Returns (cross ops up name w node).1
      → (cross ops up name w node).0.nodes ≡ w.nodes
  cross-nodes up name h w node =
      let n = w.nodes node in
      let patched : VfsNode = record n { fs = (w.fss n.fs).parent } in
      let back =
        restore-nodes w node patched.fs (up (set_node node patched w) node name)
          (h (set_node node patched w) node name) in
      elim (Bool-cases (node == 0)) [
        | inl z ↦ rw z (λ ends. refl)
        | inr nz ↦ elim (Bool-cases (is_mountpoint n.type)) [
          | inr plain ↦ rw (nz, plain) (λ ends. refl)
          | inl mp ↦ elim (Bool-cases (strcmp name dotdot == 0)) [
            | inl dots ↦ rw (nz, mp, dots) back
            | inr other ↦ rw (nz, mp, other) (λ ends. refl)
          ]
        ]
      ]

  or_cwd-nodes : (w : World S) (dir : ℕ) → (or_cwd ops w dir).0.nodes ≡ w.nodes
  unfolding vfs_get_cwd
  or_cwd-nodes w dir = elim (Bool-cases (dir == 0)) [
    | inr given ↦ rw given refl
    | inl z ↦ elim (Bool-cases (w.cwd == 0)) [
      | inl unset ↦ rw (z, unset) refl
      | inr set ↦ rw (z, set) refl
    ]
  ]

  -- The rest of `vfs_lookup`, given the file system's own lookup.
  abbrev lookup_with :
      ℕ
      → World S
      → ℕ
      → List ℕ
      → Option (World S → ℕ → List ℕ → World S × Result ℕ)
      → World S × Result ℕ
  lookup_with fuel w dir name none = (w, Result.error enotsup)
  lookup_with fuel w dir name (some lookup) =
      let n = w.nodes dir in
      if not (is_dir n.type) && not (is_mountpoint n.type)
      then (w, Result.error enotdir)
      else and_then (lookup w dir name) (cross ops (vfs_lookup ops fuel) name)

  lookup_with-nodes :
      (fuel : ℕ) (w : World S) (dir : ℕ) (name : List ℕ)
      (o : Option (World S → ℕ → List ℕ → World S × Result ℕ))
      → ((w : World S) (dir : ℕ) (n : List ℕ)
          → Returns (vfs_lookup ops fuel w dir n).1
          → (vfs_lookup ops fuel w dir n).0.nodes ≡ w.nodes)
      → ((f : World S → ℕ → List ℕ → World S × Result ℕ)
          → o ≡ some f
          → (f w dir name).0.nodes ≡ w.nodes)
      → Returns (lookup_with fuel w dir name o).1
      → (lookup_with fuel w dir name o).0.nodes ≡ w.nodes
  lookup_with-nodes fuel w dir name none up h = λ ends. refl
  lookup_with-nodes fuel w dir name (some lookup) up h =
      let t = (w.nodes dir).type in
      let name_found =
        and_then-nodes (lookup w dir name) (cross ops (vfs_lookup ops fuel) name)
          (cross-nodes (vfs_lookup ops fuel) name up) in
      elim (Bool-cases (not (is_dir t) && not (is_mountpoint t))) [
        | inl bad ↦ rw bad (λ ends. refl)
        | inr good ↦ rw good (λ ends. name_found ends ∙ h lookup refl)
      ]

  lookup_with-elim :
      (fuel : ℕ) (w : World S) (dir : ℕ) (name : List ℕ)
      (o : Option (World S → ℕ → List ℕ → World S × Result ℕ))
      → elim o [
        | none ↦ (w, Result.error enotsup)
        | some lookup ↦
            if not (is_dir (w.nodes dir).type) && not (is_mountpoint (w.nodes dir).type)
            then (w, Result.error enotdir)
            else and_then (lookup w dir name) (cross ops (vfs_lookup ops fuel) name)
      ]
        ≡ lookup_with fuel w dir name o
  lookup_with-elim fuel w dir name none = refl
  lookup_with-elim fuel w dir name (some lookup) = refl

  lookup-with :
      (fuel : ℕ) (w : World S) (dir : ℕ) (name : List ℕ)
      → vfs_lookup ops (suc fuel) w dir name
        ≡ lookup_with fuel
            (or_cwd ops w dir).0
            (or_cwd ops w dir).1
            name
            (ops ((or_cwd ops w dir).0.nodes (or_cwd ops w dir).1).fs).lookup
  unfolding vfs_lookup
  lookup-with fuel w dir name =
      let (v, d) = or_cwd ops w dir in lookup_with-elim fuel v d name (ops (v.nodes d).fs).lookup

  -- Where the lookups of the file systems leave the nodes as they are, a call of vfs_lookup that
  -- returns, with a node or with an error, leaves them as they are as well, however many mount
  -- points it climbs through.
  pub vfs_lookup-nodes :
      (fuel : ℕ) (w : World S) (dir : ℕ) (name : List ℕ)
      → KeepNodes
      → Returns (vfs_lookup ops fuel w dir name).1
      → (vfs_lookup ops fuel w dir name).0.nodes ≡ w.nodes
  unfolding vfs_lookup
  vfs_lookup-nodes zero w dir name keep ends = absurd ends
  vfs_lookup-nodes (suc fuel) w₀ dir₀ name keep ends =
      let w = (or_cwd ops w₀ dir₀).0 in
      let dir = (or_cwd ops w₀ dir₀).1 in
      let same = lookup-with fuel w₀ dir₀ name in
      ap (λ r. r.0.nodes) same
      ∙ lookup_with-nodes fuel w dir name (ops (w.nodes dir).fs).lookup
          (λ v d n. vfs_lookup-nodes fuel v d n keep) (λ f e. keep (w.nodes dir).fs f e w dir name)
          (subst (λ r. Returns r.1) same ends)
      ∙ or_cwd-nodes w₀ dir₀
