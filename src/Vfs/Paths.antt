-- ===== src/Vfs/Paths.antt =====
-- kernel/fs/vfs.c: the resolution of paths, and what uses it. The loop over the parts of a path has
-- one round more than the path has characters, which is enough (Tok/Words.antt); `fuel` bounds the
-- mount points that one lookup of ".." climbs through.
use minima.Base.{
  ℕ, zero, suc, ◌≡◌, refl, sym, ap, ◌∙◌, Bool, true, false, not, List, [], ◌∷◌, ◌++◌, arith, ◌==◌,
  if◌then◌else◌, length,
}
use minima.Tok.{tok_loop}
use minima.Tok.Words.{words, tok_loop-words, word_loop, words-append}
use minima.Vfs.{
  World, VfsOps, Result, and_then, vfs_lookup, vfs_get_root, vfs_get_cwd, is_dir, enotdir,
}

abbrev pub slash : ℕ
slash = 47

abbrev pub is_absolute : List ℕ → Bool
is_absolute [] = false
is_absolute (c ∷ s) = c == slash

module _ {S : Type 0} (ops : ℕ → VfsOps S) (fuel : ℕ) where
  -- The node that `vfs_traverse` starts at.
  unfoldable pub start : World S → ℕ → List ℕ → World S × ℕ
  start w from path =
      if is_absolute path
      then (w, vfs_get_root ops w)
      else if from == 0
      then (vfs_get_cwd ops w, (vfs_get_cwd ops w).cwd)
      else (w, from)

  -- The body of its loop, and the ends of the loop.
  abbrev pub enter : World S × ℕ → List ℕ → (World S × ℕ → World S × Result ℕ) → World S × Result ℕ
  enter (w, cur) name rest =
      and_then (vfs_lookup ops fuel w cur name) (λ w' next_node. rest (w', next_node))

  abbrev pub found : World S × ℕ → World S × Result ℕ
  found (w, cur) = (w, Result.done cur)

  abbrev pub exhausted : World S × ℕ → World S × Result ℕ
  exhausted (w, cur) = (w, Result.out_of_fuel)

  unfoldable pub vfs_traverse : World S → ℕ → List ℕ → World S × Result ℕ
  vfs_traverse w from path =
      let (w', cur) = start w from path in
      if cur == 0
      then (w', Result.panics)
      else tok_loop found exhausted enter (suc (length path)) (w', cur)
          (record { chars = path; sep = slash })

  -- The description of a resolution: where it begins, by the current directory,
  abbrev pub at_cwd : World S → ℕ → World S × ℕ
  at_cwd w zero = let root = (ops w.root).get_root w w.root in (record w { cwd = root }, root)
  at_cwd w (suc n) = (w, suc n)

  -- the node that is given,
  abbrev pub beside : World S → ℕ → World S × ℕ
  beside w zero = at_cwd w w.cwd
  beside w (suc n) = (w, suc n)

  -- and the first character of the path;
  abbrev pub origin : World S → ℕ → List ℕ → World S × ℕ
  origin w from [] = beside w from
  origin w from (c ∷ s) = if c == 47 then (w, (ops w.root).get_root w w.root) else beside w from

  -- and one lookup for each name, up to the first that does not find a node.
  unfoldable pub follow_names : World S → ℕ → List (List ℕ) → World S × Result ℕ
  follow_names w node [] = (w, Result.done node)
  follow_names w node (n ∷ ns) =
      and_then (vfs_lookup ops fuel w node n) (λ w' next. follow_names w' next ns)

  unfoldable pub vfs_chdir : World S → List ℕ → World S × Result Unit
  vfs_chdir w path = and_then (vfs_traverse w 0 path) (λ w' new.
      if new == 0
      then (w', Result.panics)
      else if not (is_dir (w'.nodes new).type)
      then (w', Result.error enotdir)
      else (record w' { cwd = new }, Result.done tt))

  word_loop-follow :
      (ns : List (List ℕ)) (w : World S) (node : ℕ)
      → word_loop found exhausted enter (w, node) ns ≡ follow_names w node ns
  unfolding follow_names
  word_loop-follow [] w node = refl
  word_loop-follow (n ∷ ns) w node =
      λ i. and_then (vfs_lookup ops fuel w node n) (λ w' next. word_loop-follow ns w' next i)

  and_then_assoc :
      {A B C : Type 0} (r : World S × Result A) (f : World S → A → World S × Result B)
      (g : World S → B → World S × Result C) (h : World S → A → World S × Result C)
      → ((w : World S) (a : A) → h w a ≡ and_then (f w a) g)
      → and_then r h ≡ and_then (and_then r f) g
  and_then_assoc (w, Result.done a) f g h e = e w a
  and_then_assoc (w, Result.error c) f g h e = refl
  and_then_assoc (w, Result.panics) f g h e = refl
  and_then_assoc (w, Result.out_of_fuel) f g h e = refl

  follow_names-append :
      (ns ms : List (List ℕ)) (w : World S) (node : ℕ)
      → follow_names w node (ns ++ ms)
        ≡ and_then (follow_names w node ns) (λ w' cur. follow_names w' cur ms)
  unfolding follow_names
  follow_names-append [] ms w node = refl
  follow_names-append (n ∷ ns) ms w node =
      and_then_assoc (vfs_lookup ops fuel w node n) _ _ _
        (λ w' next. follow_names-append ns ms w' next)

  -- Where the loop starts at a node, it is one lookup for each name of the path.
  abbrev pub from_node : List (List ℕ) → World S × ℕ → World S × Result ℕ
  from_node names (w, zero) = (w, Result.panics)
  from_node names (w, suc n) = follow_names w (suc n) names

  not_zero : (n : ℕ) → (suc n == 0) ≡ false
  not_zero n = ground arith

  get_cwd-at_cwd :
      (w : World S) (m : ℕ) → w.cwd ≡ m → (vfs_get_cwd ops w, (vfs_get_cwd ops w).cwd) ≡ at_cwd w m
  unfolding vfs_get_root vfs_get_cwd
  get_cwd-at_cwd w zero e = let nil : (w.cwd == 0) ≡ true = ap (λ k. k == 0) e in rw nil refl
  get_cwd-at_cwd w (suc m) e =
      let some_cwd : (w.cwd == 0) ≡ false = ap (λ k. k == 0) e ∙ not_zero m in
      rw some_cwd (ap (λ k. (w, k)) e)

  start-beside :
      (w : World S) (from : ℕ)
      → (if from == 0 then (vfs_get_cwd ops w, (vfs_get_cwd ops w).cwd) else (w, from))
        ≡ beside w from
  start-beside w zero = get_cwd-at_cwd w w.cwd refl
  start-beside w (suc n) =
      ap (λ b. if b then (vfs_get_cwd ops w, (vfs_get_cwd ops w).cwd) else (w, suc n)) (not_zero n)

  start-origin : (w : World S) (from : ℕ) (path : List ℕ) → start w from path ≡ origin w from path
  unfolding start vfs_get_root
  start-origin w from [] = start-beside w from
  start-origin w from (c ∷ s) =
      ap (λ x. if c == 47 then (w, (ops w.root).get_root w w.root) else x) (start-beside w from)

  -- vfs_traverse begins at the root where the path begins with a slash; at the given node where it
  -- does not and one is given; and otherwise at the current directory, which becomes the root if
  -- there is none yet. It asserts that this node is there, and looks up one word of the path after
  -- the other from it, up to the first error; empty parts count for nothing, and its loop ends.
  pub vfs_traverse-walk :
      (w : World S) (from : ℕ) (path : List ℕ)
      → vfs_traverse w from path ≡ from_node (words slash path) (origin w from path)
  unfolding vfs_traverse
  vfs_traverse-walk w from path =
      let rounds : tok_loop found exhausted enter (suc (length path)) (start w from path)
            (record { chars = path; sep = slash })
          ≡ follow_names (start w from path).0 (start w from path).1 (words slash path) =
        tok_loop-words found exhausted enter (suc (length path)) (start w from path)
          (record { chars = path; sep = slash }) (omega arith)
        ∙ word_loop-follow (words slash path) (start w from path).0 (start w from path).1 in
      ap (λ r. if (start w from path).1 == 0 then ((start w from path).0, Result.panics) else r)
        rounds
      ∙ at_node (words slash path) (start w from path)
      ∙ ap (from_node (words slash path)) (start-origin w from path)
    where
      at_node :
          (names : List (List ℕ)) (x : World S × ℕ)
          → (if x.1 == 0 then (x.0, Result.panics) else follow_names x.0 x.1 names)
            ≡ from_node names x
      at_node names (v, zero) = refl
      at_node names (v, suc n) =
          ap (λ b. if b then (v, Result.panics) else follow_names v (suc n) names) (not_zero n)

  from_node-append :
      (ns ms : List (List ℕ)) (x : World S × ℕ)
      → from_node (ns ++ ms) x ≡ and_then (from_node ns x) (λ w' cur. follow_names w' cur ms)
  from_node-append ns ms (w, zero) = refl
  from_node-append ns ms (w, suc n) = follow_names-append ns ms w (suc n)

  -- A path cut at a slash: the part before it is followed as the path itself, and then the names of
  -- the part behind it are looked up one after the other. The path does not begin with that slash.
  vfs_traverse-append :
      (w : World S) (from c : ℕ) (a b : List ℕ)
      → vfs_traverse w from ((c ∷ a) ++ slash ∷ b)
        ≡ and_then (vfs_traverse w from (c ∷ a)) (λ w' cur. follow_names w' cur (words slash b))
  vfs_traverse-append w from c a b =
      let x = origin w from (c ∷ a) in
      let names = words slash (c ∷ a) in
      vfs_traverse-walk w from ((c ∷ a) ++ slash ∷ b)
      ∙ ap (λ ns. from_node ns x) (words-append slash (c ∷ a) b)
      ∙ from_node-append names (words slash b) x
      ∙ ap (λ r. and_then r (λ w' cur. follow_names w' cur (words slash b)))
          (sym (vfs_traverse-walk w from (c ∷ a)))
