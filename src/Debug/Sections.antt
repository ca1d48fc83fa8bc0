-- ===== src/Debug/Sections.antt =====
-- Sections of lib/libidebug/debug.c: their registration and their look-up by name.
use libiapp.Base.{
  ℕ, zero, suc, ◌+◌, ◌≤◌, ◌<◌, ◌≡◌, refl, sym, ap, ◌∙◌, inl, inr, true, false, Option, none, some,
  [], ◌∷◌, ℤ, pos, minus_one, length, arith, leb, ◌==◌, if◌then◌else◌, store, Option-cases,
}
use mathlib.Core.Path.{subst}
use libiapp.Debug.State.{Text, Mask, DebugState, strncmp_equal, debug_section_max, debug_type_max}
use libiapp.Debug.Log.{
  first_free, set_level, debug_register, debug_setmask, same_name, look_up, debug_setmask_str,
  type_of, set_typed, debug_setmask_str2,
}

strncmp_equal_refl : (a : Text) → strncmp_equal a a (length a) ≡ true
unfolding strncmp_equal
strncmp_equal_refl [] = refl
strncmp_equal_refl (x ∷ a) = ground (arith, strncmp_equal_refl a)

same_name_refl : (a : Text) → same_name a a ≡ true
unfolding same_name
same_name_refl a = ground (arith, strncmp_equal_refl a)

-- No section has this name.
abbrev pub IsNew : (ℕ → Option Text) → Text → Type 0
IsNew strs name = (j : ℕ) (x : Text) → strs j ≡ some x → same_name x name ≡ false

pub some_value {ℓ} : {A : Type ℓ} {a b : A} → some a ≡ some b → a ≡ b
some_value e = cc

stored : (strs : ℕ → Option Text) (i : ℕ) (name : Text) → store strs i (some name) i ≡ some name
unfolding store
stored strs i name = ground arith

unstored :
    (strs : ℕ → Option Text) (i j : ℕ) (name : Text) → j < i → store strs i (some name) j ≡ strs j
unfolding store
unstored strs i j name l = ground arith

-- One turn of the loops.
module _ (strs : ℕ → Option Text) (n from : ℕ) where
  first_free-none : strs from ≡ none → first_free strs (suc n) from ≡ some from
  unfolding first_free
  first_free-none f =
      ap (λ (o : Option Text). elim o [ none ↦ some from | some x ↦ first_free strs n (suc from) ])
        f

  first_free-next :
      (x : Text) → strs from ≡ some x → first_free strs (suc n) from ≡ first_free strs n (suc from)
  unfolding first_free
  first_free-next x f =
      ap (λ (o : Option Text). elim o [ none ↦ some from | some x ↦ first_free strs n (suc from) ])
        f

  look_up-none : (name : Text) → strs from ≡ none → look_up strs name (suc n) from ≡ from
  unfolding look_up
  look_up-none name f =
      ap
        (λ (o : Option Text). elim o [
          | none ↦ from
          | some x ↦ if same_name x name then from else look_up strs name n (suc from)
        ])
        f

  look_up-some :
      (name x : Text)
      → strs from ≡ some x
      → look_up strs name (suc n) from
        ≡ (if same_name x name then from else look_up strs name n (suc from))
  unfolding look_up
  look_up-some name x f =
      ap
        (λ (o : Option Text). elim o [
          | none ↦ from
          | some x ↦ if same_name x name then from else look_up strs name n (suc from)
        ])
        f

first_free-some :
    (strs : ℕ → Option Text) (n from i : ℕ)
    → first_free strs n from ≡ some i
    → (strs i ≡ none) × (from ≤ i) × (i < from + n)
unfolding first_free
first_free-some strs zero from i e = cc
first_free-some strs (suc n) from i e = elim (Option-cases (strs from)) [
  | inl f ↦
      let k : from ≡ i = some_value (sym (first_free-none strs n from f) ∙ e) in
      (subst (λ j. strs j ≡ none) k f, ground (arith, k), ground (arith, k))
  | inr (x, f) ↦
      let (z, l, u) =
        first_free-some strs n (suc from) i (sym (first_free-next strs n from x f) ∙ e) in
      (z, omega arith, omega arith)
]

-- A name that is not known: the look-up ends at the first free section.
look_up-free :
    (strs : ℕ → Option Text) (name : Text)
    → IsNew strs name
    → (n from i : ℕ) → first_free strs n from ≡ some i
    → look_up strs name n from ≡ i
unfolding first_free
look_up-free strs name w zero from i e = cc
look_up-free strs name w (suc n) from i e = elim (Option-cases (strs from)) [
  | inl f ↦ look_up-none strs n from name f ∙ some_value (sym (first_free-none strs n from f) ∙ e)
  | inr (x, f) ↦
      look_up-some strs n from name x f
      ∙ ap (λ b. if b then from else look_up strs name n (suc from)) (w from x f)
      ∙ look_up-free strs name w n (suc from) i (sym (first_free-next strs n from x f) ∙ e)
]

-- A name that is registered is found where it was put.
look_up-store :
    (strs : ℕ → Option Text) (name : Text)
    → IsNew strs name
    → (n from i : ℕ) → first_free strs n from ≡ some i
    → look_up (store strs i (some name)) name n from ≡ i
unfolding first_free
look_up-store strs name w zero from i e = cc
look_up-store strs name w (suc n) from i e = elim (Option-cases (strs from)) [
  | inl f ↦
      let k : from ≡ i = some_value (sym (first_free-none strs n from f) ∙ e) in
      look_up-some (store strs i (some name)) n from name name
        (subst (λ j. store strs j (some name) from ≡ some name) k (stored strs from name))
      ∙ ap (λ b. if b then from else look_up (store strs i (some name)) name n (suc from))
          (same_name_refl name)
      ∙ k
  | inr (x, f) ↦
      let g = sym (first_free-next strs n from x f) ∙ e in
      let l = (first_free-some strs n (suc from) i g).1 in
      look_up-some (store strs i (some name)) n from name x
        (unstored strs i from name (omega arith) ∙ f)
      ∙ ap (λ b. if b then from else look_up (store strs i (some name)) name n (suc from))
          (w from x f)
      ∙ look_up-store strs name w n (suc from) i g
]

-- debug_setmask_str2 behind its look-up.
module _ (v : DebugState) (name dtype : Text) (mask : Mask) where
  looked_up : ℕ → Option Text → Option ℕ → DebugState × ℤ
  looked_up i o y =
      if leb debug_section_max i
      then (v, minus_one)
      else elim o [ none ↦ (v, minus_one) | some x ↦ set_typed v i y mask ]

  debug_setmask_str2_lem :
      (i : ℕ)
      → look_up v.debug_level_strs name debug_section_max 0 ≡ i
      → debug_setmask_str2 v name dtype mask ≡ looked_up i (v.debug_level_strs i) (type_of dtype)
  unfolding debug_setmask_str2 looked_up
  debug_setmask_str2_lem i e = ap (λ j. looked_up j (v.debug_level_strs j) (type_of dtype)) e

  looked_up-some :
      (i t : ℕ) (o : Option Text) (x : Text) (y : Option ℕ)
      → i < debug_section_max
      → o ≡ some x
      → y ≡ some t
      → looked_up i o y ≡ (debug_setmask v i t mask, pos 0)
  unfolding looked_up set_typed
  looked_up-some i t o x y l e f =
      let g : leb debug_section_max i ≡ false = ground arith in
      ap (λ z. looked_up i z y) e
      ∙ ap (looked_up i (some x)) f
      ∙ ap (λ b. if b then (v, minus_one) else (debug_setmask v i t mask, pos 0)) g

  looked_up-none :
      (i : ℕ) (o : Option Text) (y : Option ℕ) → o ≡ none → looked_up i o y ≡ (v, minus_one)
  unfolding looked_up
  looked_up-none i o y e = ap (λ z. looked_up i z y) e ∙ ground arith

module _ (d : DebugState) (name : Text) (w : IsNew d.debug_level_strs name) (i : ℕ)
    (e : first_free d.debug_level_strs debug_section_max 0 ≡ some i) where
  registered : DebugState
  registered = record d {
    debug_level_strs = store d.debug_level_strs i (some name);
    debug_levels = set_level (set_level (set_level d.debug_levels 0 i []) 1 i []) 2 i [];
  }

  debug_register-some : debug_register (some name) d (some name) ≡ (registered, pos i)
  unfolding debug_register registered
  debug_register-some =
      ap
        (λ (o : Option ℕ). elim o [
          | none ↦ (d, minus_one)
          | some i ↦ (
            record d {
              debug_level_strs = store d.debug_level_strs i (some name);
              debug_levels = set_level (set_level (set_level d.debug_levels 0 i []) 1 i []) 2 i [];
            },
            pos i,
          )
        ])
        e

  -- A new name that is registered, where strdup(3) succeeds and a section is free, and then named to
  -- debug_setmask_str2 with a type that it knows: the call succeeds and sets the mask of that type for the
  -- section that was registered, and the masks of any other section are as they were.
  pub debug_setmask_str2-debug_register :
      (dtype : Text) (t : ℕ) (mask : Mask) (j k : ℕ)
      → t < debug_type_max
      → type_of dtype ≡ some t
      → (j == i) ≡ false
      → (u : DebugState) × (debug_setmask_str2
            (debug_register (some name) d (some name)).0
            name
            dtype
            mask
          ≡ (u, pos 0))
        × (u.debug_levels t i ≡ mask)
        × (u.debug_levels k j ≡ d.debug_levels k j)
  unfolding debug_setmask set_level registered store
  debug_setmask_str2-debug_register dtype t mask j k m y q =
      let l = (first_free-some d.debug_level_strs debug_section_max 0 i e).2 in
      (
        debug_setmask registered i t mask,
        ap (λ (r : DebugState × ℤ). debug_setmask_str2 r.0 name dtype mask) debug_register-some
            ∙ debug_setmask_str2_lem registered name dtype mask i
                (look_up-store d.debug_level_strs name w debug_section_max 0 i e)
            ∙ looked_up-some registered name dtype mask i t _ name _ l
                (stored d.debug_level_strs i name) y,
        ground arith,
        ground arith,
      )

  debug_setmask_str_lem :
      (t : ℕ) (mask : Mask)
      → look_up d.debug_level_strs name debug_section_max 0 ≡ i
      → debug_setmask_str d name t mask
        ≡ (if leb debug_section_max i then d else debug_setmask d i t mask)
  unfolding debug_setmask_str
  debug_setmask_str_lem t mask k =
      ap (λ j. if leb debug_section_max j then d else debug_setmask d j t mask) k

  set_free :
      (t : ℕ) (mask : Mask)
      → t < debug_type_max
      → i < debug_section_max
      → (if leb debug_section_max i then d else debug_setmask d i t mask).debug_levels t i ≡ mask
  unfolding debug_setmask set_level store
  set_free t mask l h = ground arith

  -- A name that no section has, where a section is free: debug_setmask_str sets the mask of the free section,
  -- while debug_setmask_str2 fails and changes nothing.
  pub debug_setmask_str-unknown :
      (dtype : Text) (t : ℕ) (mask : Mask)
      → t < debug_type_max
      → ((debug_setmask_str d name t mask).debug_levels t i ≡ mask)
        × (debug_setmask_str2 d name dtype mask ≡ (d, minus_one))
  debug_setmask_str-unknown dtype t mask l =
      let (z, _, h) = first_free-some d.debug_level_strs debug_section_max 0 i e in
      let k = look_up-free d.debug_level_strs name w debug_section_max 0 i e in
      (
        ap (λ (u : DebugState). u.debug_levels t i) (debug_setmask_str_lem t mask k)
            ∙ set_free t mask l h,
        debug_setmask_str2_lem d name dtype mask i k ∙ looked_up-none d name dtype mask i _ _ z,
      )
