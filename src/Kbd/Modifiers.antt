-- ===== src/Kbd/Modifiers.antt =====
-- kernel/drivers/kbd.c, `get_mod` and `check_special`: the keys that are modifiers.
use mathlib.Core.Path.{subst}
use native.Mathlib.Decide.{ℕ_discrete}
use minima.Base.{
  ℕ, zero, suc, ◌%◌, ◌≤◌, ◌≡◌, refl, sym, Bool, true, false, ◌||◌, Option, some, List, [], ◌∷◌,
  arith, ltb, ◌==◌, if◌then◌else◌,
}
use minima.Kbd.{mod_shift, mod_ctrl, mod_alt, mod_0x60, get_mod, check_special, change, is_down}

-- The array of modifiers: shift is 0 or 1, and the prefix is 0.
abbrev pub IsMods : List ℕ → Type 0
IsMods (unused ∷ shift ∷ ctrl ∷ alt ∷ prefix ∷ lmeta ∷ rmeta ∷ []) = (shift ≤ 1) × (prefix ≡ 0)
IsMods other = ⊥

-- The keys that are modifiers: the shifts, control, alt, the prefix and the metas.
abbrev pub is_modifier : ℕ → Bool
is_modifier key =
    (key == 42)
    || ((key == 54)
        || ((key == 29) || ((key == 56) || ((key == 96) || ((key == 91) || (key == 92))))))

-- The array of modifiers after one of them is pressed or released; the prefix is not kept.
abbrev pub after_key : List ℕ → ℕ → ℕ → List ℕ
after_key (unused ∷ shift ∷ ctrl ∷ alt ∷ prefix ∷ lmeta ∷ rmeta ∷ []) key down =
    unused
    ∷ (if (key == 42) || (key == 54) then down else shift)
    ∷ (if key == 29 then down else ctrl)
    ∷ (if key == 56 then down else alt)
    ∷ 0
    ∷ (if key == 91 then down else lmeta)
    ∷ (if key == 92 then down else rmeta)
    ∷ []
after_key other key down = other

abbrev pub pressed : ℕ → ℕ
pressed scancode = if ltb scancode 128 then 1 else 0

-- What `check_special` answers.
pub data Special (m : List ℕ) (key down : ℕ) : Option (Bool × List ℕ) → Type 0 where
  plain : is_modifier key ≡ false → Special m key down (some (false, m))
  modifier :
      is_modifier key ≡ true
      → IsMods (after_key m key down)
      → Special m key down (some (true, after_key m key down))

-- the switch of `get_mod`
abbrev mod_of : ℕ → ℕ
mod_of key =
    if (key == 42) || (key == 54)
    then mod_shift
    else if key == 29
    then mod_ctrl
    else if key == 56
    then mod_alt
    else if key == 96
    then mod_0x60
    else if key == 91
    then 5
    else if key == 92
    then 6
    else 0

module _ (u s c a l r : ℕ) (shift : s ≤ 1) (down : ℕ) (bit : down ≤ 1) where
  abbrev now : List ℕ
  now = u ∷ s ∷ c ∷ a ∷ 0 ∷ l ∷ r ∷ []

  abbrev Answers : ℕ → Type 0
  Answers key = Special now key down (change now (mod_of key) down)

  prefix_key : (d : ℕ) → d ≤ 1 → Special now 96 d (change now (mod_of 96) d)
  unfolding change
  prefix_key zero h = modifier refl (shift, refl)
  prefix_key (suc zero) h = modifier refl (shift, refl)
  prefix_key (suc (suc d)) h = absurd (omega arith)

  change-Special : (key : ℕ) → Answers key
  unfolding change
  change-Special key = elim (ℕ_discrete key 42) [
    | yes e ↦ subst Answers (sym e) (modifier refl (bit, refl))
    | no n₁ ↦ elim (ℕ_discrete key 54) [
      | yes e ↦ subst Answers (sym e) (modifier refl (bit, refl))
      | no n₂ ↦ elim (ℕ_discrete key 29) [
        | yes e ↦ subst Answers (sym e) (modifier refl (shift, refl))
        | no n₃ ↦ elim (ℕ_discrete key 56) [
          | yes e ↦ subst Answers (sym e) (modifier refl (shift, refl))
          | no n₄ ↦ elim (ℕ_discrete key 96) [
            | yes e ↦ subst Answers (sym e) (prefix_key down bit)
            | no n₅ ↦ elim (ℕ_discrete key 91) [
              | yes e ↦ subst Answers (sym e) (modifier refl (shift, refl))
              | no n₆ ↦ elim (ℕ_discrete key 92) [
                | yes e ↦ subst Answers (sym e) (modifier refl (shift, refl))
                | no n₇ ↦
                    let none_of : mod_of key ≡ 0 = ground (arith, n₁, n₂, n₃, n₄, n₅, n₆, n₇) in
                    let is_plain : is_modifier key ≡ false =
                      ground (arith, n₁, n₂, n₃, n₄, n₅, n₆, n₇) in
                    subst (λ m. Special now key down (change now m down)) (sym none_of)
                      (plain is_plain)
              ]
            ]
          ]
        ]
      ]
    ]
  ]

pub check_special-Special :
    (m : List ℕ) (scancode : ℕ)
    → IsMods m
    → Special m (scancode % 128) (pressed scancode) (check_special m scancode)
unfolding check_special get_mod
check_special-Special (u ∷ s ∷ c ∷ a ∷ suc p ∷ l ∷ r ∷ []) scancode h = absurd (omega (arith, h.1))
check_special-Special (u ∷ s ∷ c ∷ a ∷ zero ∷ l ∷ r ∷ []) scancode h =
    let bit : pressed scancode ≤ 1 = ground arith in
    let same : is_down scancode ≡ pressed scancode = ground arith in
    let m = u ∷ s ∷ c ∷ a ∷ 0 ∷ l ∷ r ∷ [] in
    let key = scancode % 128 in
    subst (λ d. Special m key (pressed scancode) (change m (mod_of key) d)) (sym same)
      (change-Special u s c a l r h.0 (pressed scancode) bit key)
check_special-Special other scancode h = absurd h
