-- ===== src/Memfs/Tree.antt =====
-- kernel/fs/mem.c: new files and directories, and the lookup of names.
use minima.Base.{
  ℕ, ◌≡◌, ◌≢◌, refl, sym, ap, ◌∙◌, false, ◌&&◌, none, some, List, [], ◌∷◌, ◌==◌, if◌then◌else◌,
  length, get_or, All, Bool-cases, inl, inr, ==_refl, ne→not-==, ==→eq,
}
use minima.Utils.{strcmp, strncmp}
use minima.Utils.Compare.{IsChar, strcmp-zero}
use minima.Vfs.{World, NodeType, Result, enoent, set_at}
use minima.Memfs.{
  MemfsNode, Own, add_new, memfs_node_create, memfs_add_child, memfs_create, memfs_mkdir,
  find_child, memfs_lookup, look_up,
}

-- The children of a directory are other nodes than the one that is made next, and so is the
-- directory.
abbrev pub IsOld : World Own → ℕ → Type 0
IsOld w dir = (dir ≢ w.own.fresh) × All (λ c. c ≢ w.own.fresh) (w.own.mem dir).children

-- a name that is looked up among the children
abbrev pub IsPlain : List ℕ → Type 0
IsPlain name =
    All IsChar name
    × (((length name == 1) && (get_or name 0 0 == 46)) ≡ false)
    × (((length name == 2) && (strncmp name (46 ∷ 46 ∷ []) 2 == 0)) ≡ false)

-- A world in which a node of a type and a mode has been added to a directory under a name.
pub record Added (type : NodeType) (w : World Own) (dir : ℕ) (name : List ℕ) (mode : ℕ)
    (w' : World Own) : Type 0 where
  pub found : memfs_lookup w' dir name ≡ (w', Result.done w.own.fresh)
  pub node : w'.nodes w.own.fresh ≡ record {
    fs = (w.nodes dir).fs;
    id = (w.own.memfs (w.nodes dir).fs).last_id;
    type = type;
    mode = mode;
  }
  pub others :
      (other : List ℕ)
      → All IsChar other
      → other ≢ name
      → (memfs_lookup w' dir other).1 ≡ (memfs_lookup w dir other).1

set_at-same : {A : Type 0} (f : ℕ → A) (i : ℕ) (v : A) → set_at f i v i ≡ v
set_at-same f i v = rw (==_refl i) refl

set_at-other : {A : Type 0} (f : ℕ → A) (i j : ℕ) (v : A) → j ≢ i → set_at f i v j ≡ f j
set_at-other f i j v ne = rw (ne→not-== j i ne) refl

-- Lookups among nodes whose names are the same find the same.
find_child-ext :
    (mem mem' : ℕ → MemfsNode) (name children : List ℕ)
    → All (λ c. (mem' c).name ≡ (mem c).name) children
    → find_child mem' name children ≡ find_child mem name children
unfolding find_child
find_child-ext mem mem' name [] h = refl
find_child-ext mem mem' name (c ∷ children) h =
    let rest = find_child-ext mem mem' name children h.1 in
    ap (λ s. if strcmp s name == 0 then some c else find_child mem' name children) h.0
    ∙ ap (λ r. if strcmp (mem c).name name == 0 then some c else r) rest

-- the nodes of the file system after `add_new`
abbrev mem_after : World Own → ℕ → List ℕ → ℕ → MemfsNode
mem_after w dir name = (add_new NodeType.nt_file w dir name 0).0.own.mem

module _ (w : World Own) (dir : ℕ) (name : List ℕ) (apart : dir ≢ w.own.fresh) where
  mem_after-dir : (mem_after w dir name dir).children ≡ w.own.fresh ∷ (w.own.mem dir).children
  unfolding memfs_node_create memfs_add_child
  mem_after-dir = rw (==_refl dir, ne→not-== dir w.own.fresh apart) refl

  mem_after-new : (mem_after w dir name w.own.fresh).name ≡ name
  unfolding memfs_node_create memfs_add_child
  mem_after-new = rw (ne→not-== w.own.fresh dir (λ e. apart (sym e)), ==_refl w.own.fresh) refl

  mem_after-old : (c : ℕ) → c ≢ w.own.fresh → (mem_after w dir name c).name ≡ (w.own.mem c).name
  unfolding memfs_node_create memfs_add_child
  mem_after-old c old = elim (Bool-cases (c == dir)) [
    | inl same ↦
        rw (same, ne→not-== dir w.own.fresh apart)
          (ap (λ d. (w.own.mem d).name) (sym (==→eq c dir same)))
    | inr other ↦ rw (other, ne→not-== c w.own.fresh old) refl
  ]

  mem_after-up : (mem_after w dir name dir).up ≡ (w.own.mem dir).up
  unfolding memfs_node_create memfs_add_child
  mem_after-up = rw (==_refl dir, ne→not-== dir w.own.fresh apart) refl

  old-names :
      (children : List ℕ)
      → All (λ c. c ≢ w.own.fresh) children
      → All (λ c. (mem_after w dir name c).name ≡ (w.own.mem c).name) children
  old-names [] h = tt
  old-names (c ∷ children) h = (mem_after-old c h.0, old-names children h.1)

find_child-first :
    (mem : ℕ → MemfsNode) (name : List ℕ) (c : ℕ) (children : List ℕ)
    → All IsChar name
    → (mem c).name ≡ name
    → find_child mem name (c ∷ children) ≡ some c
unfolding find_child
find_child-first mem name c children chars e =
    let same : strcmp (mem c).name name ≡ 0 =
      ap (λ s. strcmp s name) e ∙ (strcmp-zero name name chars chars).1 refl in
    ap (λ z. if z == 0 then some c else find_child mem name children) same

find_child-skip :
    (mem : ℕ → MemfsNode) (name other : List ℕ) (c : ℕ) (children : List ℕ)
    → All IsChar name
    → All IsChar other
    → other ≢ name
    → (mem c).name ≡ name
    → find_child mem other (c ∷ children) ≡ find_child mem other children
unfolding find_child
find_child-skip mem name other c children chars ochars ne e =
    let differ : strcmp (mem c).name other ≢ 0 = λ z.
      ne (sym ((strcmp-zero name other chars ochars).0 (ap (λ s. strcmp s other) (sym e) ∙ z))) in
    ap (λ b. if b then some c else find_child mem other children)
      (ne→not-== (strcmp (mem c).name other) 0 differ)

look_up-plain :
    (mem : ℕ → MemfsNode) (dir up : ℕ) (children name : List ℕ) (c : ℕ)
    → IsPlain name
    → find_child mem name children ≡ some c
    → look_up mem dir up children name ≡ Result.done c
unfolding look_up
look_up-plain mem dir up children name c plain e =
    rw (plain.1, plain.2)
      (ap (λ o. elim o [ none ↦ Result.error enoent | some d ↦ Result.done d ]) e)

look_up-ext :
    (mem mem' : ℕ → MemfsNode) (dir up : ℕ) (children children' name : List ℕ)
    → find_child mem' name children' ≡ find_child mem name children
    → look_up mem' dir up children' name ≡ look_up mem dir up children name
unfolding look_up
look_up-ext mem mem' dir up children children' name e =
    ap
      (λ o.
        if (length name == 1) && (get_or name 0 0 == 46)
        then Result.done dir
        else if (length name == 2) && (strncmp name (46 ∷ 46 ∷ []) 2 == 0)
        then Result.done up
        else elim o [ none ↦ Result.error enoent | some c ↦ Result.done c ])
      e

add_new-Added :
    (type : NodeType) (w : World Own) (dir : ℕ) (name : List ℕ) (mode : ℕ)
    → IsOld w dir
    → IsPlain name
    → Added type w dir name mode (add_new type w dir name mode).0
unfolding memfs_lookup memfs_node_create memfs_add_child
add_new-Added type w dir name mode old plain =
    let mem = mem_after w dir name in
    let children = w.own.fresh ∷ (w.own.mem dir).children in
    let w' = (add_new type w dir name mode).0 in
    record {
      found =
          ap (λ r. (w', r))
            (ap (λ l. look_up mem dir (mem dir).up l name) (mem_after-dir w dir name old.0)
              ∙ look_up-plain mem dir (mem dir).up children name w.own.fresh plain (
                  find_child-first mem name w.own.fresh (w.own.mem dir).children plain.0
                    (mem_after-new w dir name old.0)));
      node = rw (==_refl w.own.fresh) refl;
      others = λ other chars ne.
          ap (λ l. look_up mem dir (mem dir).up l other) (mem_after-dir w dir name old.0)
          ∙ ap (λ u. look_up mem dir u children other) (mem_after-up w dir name old.0)
          ∙ look_up-ext w.own.mem mem dir (w.own.mem dir).up (w.own.mem dir).children children other
              (find_child-skip mem name other w.own.fresh (w.own.mem dir).children plain.0 chars ne
                  (mem_after-new w dir name old.0)
                ∙ find_child-ext w.own.mem mem other (w.own.mem dir).children
                    (old-names w dir name old.0 (w.own.mem dir).children old.1));
    }

-- In a directory whose children, like itself, are other nodes than the one that is made next,
-- memfs_create and memfs_mkdir under a name of proper characters that is not "." or ".." add a
-- node: memfs_lookup then finds it under the name, it is a file or a directory of the same file
-- system with the next id and the mode, and every other name is looked up as before.
pub memfs_create-Added :
    (w : World Own) (dir : ℕ) (name : List ℕ) (mode : ℕ)
    → IsOld w dir
    → IsPlain name
    → Added NodeType.nt_file w dir name mode (memfs_create w dir name mode).0
      × Added NodeType.nt_dir w dir name mode (memfs_mkdir w dir name mode).0
unfolding memfs_create memfs_mkdir
memfs_create-Added w dir name mode old plain = (
  add_new-Added NodeType.nt_file w dir name mode old plain,
  add_new-Added NodeType.nt_dir w dir name mode old plain,
)
