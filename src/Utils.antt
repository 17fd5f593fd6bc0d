-- ===== src/Utils.antt =====
-- kernel/utils.c: comparisons and paths. A string is the list of its bytes before the terminating
-- NUL; a comparison returns the 32-bit word of an `int`.
pub mod Compare
pub mod Paths
use minima.Base.{
  ℕ, zero, suc, ◌+◌, Bool, true, false, ◌&&◌, not, ◌||◌, Option, none, some, List, [], ◌∷◌, take,
  sub32, ◌==◌, if◌then◌else◌,
}

unfoldable pub strcmp : List ℕ → List ℕ → ℕ
strcmp [] [] = 0
strcmp [] (b ∷ t) = sub32 0 b
strcmp (a ∷ s) [] = sub32 a 0
strcmp (a ∷ s) (b ∷ t) = let rest = strcmp s t in if a == b then rest else sub32 a b

unfoldable pub strncmp : List ℕ → List ℕ → ℕ → ℕ
strncmp s t zero = 0
strncmp [] [] (suc n) = 0
strncmp [] (b ∷ t) (suc n) = sub32 0 b
strncmp (a ∷ s) [] (suc n) = sub32 a 0
strncmp (a ∷ s) (b ∷ t) (suc n) = let rest = strncmp s t n in if a == b then rest else sub32 a b

-- `memcmp`; `none` is a read past the end of a buffer.
unfoldable pub memcmp : List ℕ → List ℕ → ℕ → Option ℕ
memcmp s t zero = some 0
memcmp [] t (suc n) = none
memcmp (a ∷ s) [] (suc n) = none
memcmp (a ∷ s) (b ∷ t) (suc n) =
    let rest = memcmp s t n in if a == b then rest else some (sub32 a b)

-- `/`
abbrev pub slash : ℕ
slash = 47

abbrev pub is_slash : List ℕ → Bool
is_slash [] = false
is_slash (c ∷ l) = c == slash

-- The loop of `dirname` from the index `i` on: `last_slash` and `others`.
unfoldable pub dir_loop : List ℕ → ℕ → Option ℕ → ℕ → Option ℕ × ℕ
dir_loop [] i last_slash others = (last_slash, others)
dir_loop (c ∷ path) i last_slash others =
    if c == slash && not (is_slash path)
    then dir_loop path (suc i) (some i) others
    else dir_loop path (suc i) last_slash (suc others)

-- `dirname` behind its loop; `.` is 46.
abbrev pub dir_of : List ℕ → Option ℕ → ℕ → List ℕ
dir_of path (some zero) others = slash ∷ []
dir_of path (some (suc i)) zero = slash ∷ []
dir_of path (some (suc i)) (suc others) = take (suc i) path
dir_of path none zero = slash ∷ []
dir_of path none (suc others) = 46 ∷ []

-- `dirname`; `none` is the path `NULL`.
unfoldable pub dirname : Option (List ℕ) → List ℕ
dirname none = 46 ∷ []
dirname (some path) =
    let (last_slash, others) = dir_loop path 0 none 0 in dir_of path last_slash others

-- The loop of `basename`: what stands behind the last slash.
unfoldable pub base_loop : List ℕ → List ℕ → List ℕ
base_loop [] last_slash = last_slash
base_loop (c ∷ path) last_slash = base_loop path (if c == slash then path else last_slash)

abbrev pub or_slash : List ℕ → List ℕ
or_slash [] = slash ∷ []
or_slash (c ∷ l) = c ∷ l

unfoldable pub basename : List ℕ → List ℕ
unfolding base_loop
basename path = or_slash (base_loop path path)
