-- ===== src/Ext2/Names.antt =====
-- kernel/fs/ext2/ext2.c: which entry a name is looked up to, and which one an index is listed as.
use mathlib.Core.Path.{ap₂}
use native.Mathlib.Decide.{ℕ_discrete}
use minima.Base.{
  ℕ, zero, suc, ◌+◌, ◌<◌, ◌≡◌, ◌≢◌, ◌&&◌, refl, sym, ap, ◌∙◌, ◌↔◌, Bool, true, false, Option, none,
  some, List, [], ◌∷◌, ◌++◌, arith, ◌==◌, if◌then◌else◌, get_elem?, get_or, take, length, All,
  ne→not-==,
}
use minima.Utils.{strncmp}
use minima.Utils.Compare.{IsChar, strcmp-zero, strncmp-take}
use minima.Vfs.{Result, enoent}
use minima.Ext2.{Ext2Fs, Inode}
use minima.Ext2.Inodes.{Ext2Node, get_node}
use minima.Ext2.Dirs.{
  DirEntry, name_len, for_each, lookup_cb, readdir_cb, iterate_dirents, Looked, ext2_lookup,
  ext2_readdir,
}

-- the name of an entry
abbrev pub entry_name : Ext2Fs → DirEntry → List ℕ
entry_name fs e = take (name_len fs e) e.name

-- The entry's name is the name, or the beginning of it.
abbrev pub Begins : Ext2Fs → List ℕ → DirEntry → Type 0
Begins fs name e = take (name_len fs e) name ≡ entry_name fs e

All-take : (P : ℕ → Type 0) (n : ℕ) (s : List ℕ) → All P s → All P (take n s)
All-take P zero s h = tt
All-take P (suc n) [] h = tt
All-take P (suc n) (c ∷ s) h = (h.0, All-take P n s h.1)

-- The loop of `ext2_readdir` finds the entry at the index.
readdir-loop :
    (fs : Ext2Fs) (idx iter : ℕ) (es : List DirEntry) (out : Option (List ℕ))
    → idx < iter
    → (for_each (readdir_cb fs idx) es (iter, out)).1 ≡ out
unfolding readdir_cb
readdir-loop fs idx iter [] out h = refl
readdir-loop fs idx iter (e ∷ es) out h =
    let past : (iter == idx) ≡ false = ne→not-== iter idx (omega (arith, h)) in
    ap
      (λ b.
        (for_each (readdir_cb fs idx) es (iter + 1, if b then some (entry_name fs e) else out)).1)
      past
    ∙ readdir-loop fs idx (iter + 1) es out (omega arith)

abbrev name_at : Ext2Fs → List DirEntry → ℕ → Option (List ℕ)
name_at fs [] i = none
name_at fs (e ∷ es) zero = some (entry_name fs e)
name_at fs (e ∷ es) (suc i) = name_at fs es i

readdir-finds :
    (fs : Ext2Fs) (es : List DirEntry) (iter i : ℕ)
    → (for_each (readdir_cb fs (iter + i)) es (iter, none)).1 ≡ name_at fs es i
unfolding readdir_cb
readdir-finds fs [] iter i = refl
readdir-finds fs (e ∷ es) iter zero =
    let idx = iter + 0 in
    let here : (iter == idx) ≡ true = ground arith in
    ap
      (λ b.
        (for_each (readdir_cb fs idx) es (iter + 1, if b then some (entry_name fs e) else none)).1)
      here
    ∙ readdir-loop fs idx (iter + 1) es (some (entry_name fs e)) (omega arith)
readdir-finds fs (e ∷ es) iter (suc i) =
    let idx = iter + suc i in
    let later : (iter == idx) ≡ false = ground arith in
    let shift : idx ≡ (iter + 1) + i = omega arith in
    ap
      (λ b.
        (for_each (readdir_cb fs idx) es (iter + 1, if b then some (entry_name fs e) else none)).1)
      later
    ∙ ap (λ j. (for_each (readdir_cb fs j) es (iter + 1, none)).1) shift
    ∙ readdir-finds fs es (iter + 1) i

put-name_at :
    (fs : Ext2Fs) (was_set : Bool) (es : List DirEntry) (i : ℕ)
    → elim (name_at fs es i) as (λ _. Result (Option (List ℕ))) [
      | none ↦ Result.error enoent
      | some name ↦ Result.done (if was_set then some name else none)
    ]
      ≡ elim (get_elem? es i) [
        | none ↦ Result.error enoent
        | some e ↦ Result.done (if was_set then some (entry_name fs e) else none)
      ]
put-name_at fs was_set [] i = refl
put-name_at fs was_set (e ∷ es) zero = refl
put-name_at fs was_set (e ∷ es) (suc i) = put-name_at fs was_set es i

-- Where the blocks of a directory hold entries, ext2_readdir returns an error exactly when the
-- index is past them, and otherwise puts out the name of the entry at the index, if the output held
-- a pointer before, and nothing if it held NULL.
ext2_readdir-entry :
    (read_at : ℕ → Option (List ℕ)) (fs : Ext2Fs) (was_set : Bool) (dir : Inode) (idx : ℕ)
    (es : List DirEntry)
    → iterate_dirents read_at fs dir.dir_blocks ≡ some es
    → ext2_readdir read_at fs was_set dir idx ≡ elim (get_elem? es idx) [
      | none ↦ Result.error enoent
      | some e ↦ Result.done (if was_set then some (entry_name fs e) else none)
    ]
unfolding ext2_readdir
ext2_readdir-entry read_at fs was_set dir idx es has =
    let put : Option (List ℕ) → Result (Option (List ℕ)) = λ o. elim o [
      | none ↦ Result.error enoent
      | some name ↦ Result.done (if was_set then some name else none)
    ] in
    let listed : Option (List DirEntry) → Result (Option (List ℕ)) = λ o. elim o [
      | none ↦ Result.panics
      | some l ↦ put (for_each (readdir_cb fs idx) l (0, none)).1
    ] in
    let from_0 : 0 + idx ≡ idx = omega arith in
    ap listed has
    ∙ ap (λ i. put (for_each (readdir_cb fs i) es (0, none)).1) (sym from_0)
    ∙ ap put (readdir-finds fs es 0 idx)
    ∙ put-name_at fs was_set es idx

-- A name is looked up to an entry whose name is the beginning of it.
lookup-Begins :
    (fs : Ext2Fs) (name : List ℕ) (e : DirEntry)
    → All IsChar name
    → All IsChar (entry_name fs e)
    → (strncmp name e.name (name_len fs e) ≡ 0) ↔ Begins fs name e
lookup-Begins fs name e chars echars =
    let same = strncmp-take name e.name (name_len fs e) in
    let (go, back) =
      strcmp-zero (take (name_len fs e) name) (entry_name fs e)
        (All-take IsChar (name_len fs e) name chars) echars in
    (λ z. go (sym same ∙ z), λ b. same ∙ back b)

lookup-skip :
    (read_at : ℕ → Option (List ℕ)) (fs_ptr : ℕ) (fs : Ext2Fs) (name : List ℕ) (es : List DirEntry)
    (out : Option Ext2Node)
    → All (λ e. strncmp name e.name (name_len fs e) ≢ 0) es
    → for_each (lookup_cb read_at fs_ptr fs name) es out ≡ out
unfolding lookup_cb
lookup-skip read_at fs_ptr fs name [] out h = refl
lookup-skip read_at fs_ptr fs name (e ∷ es) out h =
    ap
      (λ b.
        for_each (lookup_cb read_at fs_ptr fs name) es
          (if b then get_node read_at fs_ptr fs e.inode else out))
      (ne→not-== _ 0 h.0)
    ∙ lookup-skip read_at fs_ptr fs name es out h.1

lookup-last :
    (read_at : ℕ → Option (List ℕ)) (fs_ptr : ℕ) (fs : Ext2Fs) (name : List ℕ)
    (before : List DirEntry) (e : DirEntry) (behind : List DirEntry) (out : Option Ext2Node)
    → strncmp name e.name (name_len fs e) ≡ 0
    → All (λ d. strncmp name d.name (name_len fs d) ≢ 0) behind
    → for_each (lookup_cb read_at fs_ptr fs name) (before ++ e ∷ behind) out
      ≡ get_node read_at fs_ptr fs e.inode
unfolding lookup_cb
lookup-last read_at fs_ptr fs name [] e behind out is others =
    lookup-skip read_at fs_ptr fs name behind _ others
    ∙ ap (λ z. if z == 0 then get_node read_at fs_ptr fs e.inode else out) is
lookup-last read_at fs_ptr fs name (d ∷ before) e behind out is others =
    lookup-last read_at fs_ptr fs name before e behind _ is others

All-none :
    (fs : Ext2Fs) (name : List ℕ) (es : List DirEntry)
    → All IsChar name
    → All (λ d. All IsChar (entry_name fs d)) es
    → All (λ d. ¬ (Begins fs name d)) es
    → All (λ d. strncmp name d.name (name_len fs d) ≢ 0) es
All-none fs name [] chars names others = tt
All-none fs name (e ∷ es) chars names others = (
  λ z. others.0 ((lookup-Begins fs name e chars names.0).0 z),
  All-none fs name es chars names.1 others.1,
)

not-dot : (name : List ℕ) → name ≢ 46 ∷ [] → ((length name == 1) && (get_or name 0 0 == 46)) ≡ false
not-dot [] h = refl
not-dot (c ∷ []) h = ne→not-== c 46 (λ e. h (ap (λ x. x ∷ []) e))
not-dot (c ∷ d ∷ name) h = ground arith

not-dots :
    (is_root : Bool) (name : List ℕ)
    → All IsChar name
    → name ≢ 46 ∷ 46 ∷ []
    → (is_root && (length name == 2) && (strncmp name (46 ∷ 46 ∷ []) 2 == 0)) ≡ false
unfolding strncmp
not-dots false name chars h = refl
not-dots true [] chars h = refl
not-dots true (c ∷ []) chars h = refl
not-dots true (c ∷ d ∷ []) chars h = elim (ℕ_discrete c 46) [
  | no ne ↦ ground (arith, ne, chars.0.1)
  | yes c_dot ↦ elim (ℕ_discrete d 46) [
    | no ne ↦ ground (arith, ne, c_dot, chars.1.0.1)
    | yes d_dot ↦ absurd (h (ap₂ (λ x y. x ∷ y ∷ []) c_dot d_dot))
  ]
]
not-dots true (c ∷ d ∷ x ∷ name) chars h = ground arith

-- Where the blocks of a directory hold entries whose names are proper, a name other than "." and
-- ".." is looked up to the last entry whose name is the beginning of it, longer names included: its
-- node is put out, and where that cannot be read the lookup is an error.
pub ext2_lookup-last_prefix :
    (read_at : ℕ → Option (List ℕ)) (fs : Ext2Fs) (fs_ptr : ℕ) (is_root : Bool) (dir : Inode)
    (name : List ℕ) (before : List DirEntry) (e : DirEntry) (behind : List DirEntry)
    → iterate_dirents read_at fs dir.dir_blocks ≡ some (before ++ e ∷ behind)
    → All IsChar name
    → All (λ d. All IsChar (entry_name fs d)) (e ∷ behind)
    → name ≢ 46 ∷ []
    → name ≢ 46 ∷ 46 ∷ []
    → Begins fs name e
    → All (λ d. ¬ (Begins fs name d)) behind
    → ext2_lookup read_at fs fs_ptr is_root dir name ≡ elim (get_node read_at fs_ptr fs e.inode) [
      | none ↦ Result.error enoent
      | some n ↦ Result.done (Looked.node n)
    ]
unfolding ext2_lookup
ext2_lookup-last_prefix read_at fs fs_ptr is_root dir name before e behind has chars names dot dots
      is others =
    let put : Option Ext2Node → Result Looked =
      λ o. elim o [ none ↦ Result.error enoent | some n ↦ Result.done (Looked.node n) ] in
    let cb = lookup_cb read_at fs_ptr fs name in
    let in_entries : Option (List DirEntry) → Result Looked =
      λ o. elim o [ none ↦ Result.panics | some es ↦ put (for_each cb es none) ] in
    let no_match = All-none fs name behind chars names.1 others in
    rw (not-dot name dot, not-dots is_root name chars dots)
      (ap in_entries has
        ∙ ap put (
            lookup-last read_at fs_ptr fs name before e behind none
              ((lookup-Begins fs name e chars names.0).1 is) no_match))
