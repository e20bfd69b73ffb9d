-- ===== src/Text/Trim.antt =====
-- Trimming twice is trimming once, and a text without spaces is left as it is.
use Prim.Native.Char.{code}
use Prim.Native.String.{[], ◌∷◌}
use astradns_operator.Base.{String, ◌≡◌, refl, false, ◌&&◌, ◌==◌, eqb, Bool-cases, inl, inr, arith}
use astradns_operator.Text.{is_space, trim_left, trim_right, trim_space, trim_dot}

-- The text does not begin with a space.
abbrev StartsBare : String → Type 0
StartsBare [] = Unit
StartsBare (c ∷ s) = is_space c ≡ false

trim_left-StartsBare : (s : String) → StartsBare (trim_left s)
unfolding trim_left
trim_left-StartsBare [] = tt
trim_left-StartsBare (c ∷ s) = ground (arith, trim_left-StartsBare s)

trim_left_of_StartsBare : (s : String) → StartsBare s → trim_left s ≡ s
unfolding trim_left
trim_left_of_StartsBare [] h = refl
trim_left_of_StartsBare (c ∷ s) h = ground arith

trim_right-StartsBare : (s : String) → StartsBare s → StartsBare (trim_right s)
unfolding trim_right
trim_right-StartsBare [] h = tt
trim_right-StartsBare (c ∷ s) h = ground arith

trim_right_idem : (s : String) → trim_right (trim_right s) ≡ trim_right s
unfolding trim_right
trim_right_idem [] = refl
trim_right_idem (c ∷ s) = elim (Bool-cases (trim_right s == "" && is_space c)) [
  | inl gone ↦ rw gone
  | inr kept ↦ rw (kept, trim_right_idem s, kept)
]

pub trim_space_idem : (s : String) → trim_space (trim_space s) ≡ trim_space s
unfolding trim_space
trim_space_idem s =
    rw
      (trim_left_of_StartsBare (trim_right (trim_left s))
        (trim_right-StartsBare (trim_left s) (trim_left-StartsBare s)))
      (trim_right_idem (trim_left s))

-- No code point of the text is a space.
abbrev pub IsSpaceFree : String → Type 0
IsSpaceFree [] = Unit
IsSpaceFree (c ∷ s) = (is_space c ≡ false) × IsSpaceFree s

trim_right_of_IsSpaceFree : (s : String) → IsSpaceFree s → trim_right s ≡ s
unfolding trim_right
trim_right_of_IsSpaceFree [] h = refl
trim_right_of_IsSpaceFree (c ∷ s) (p, h) = ground (arith, trim_right_of_IsSpaceFree s h)

pub trim_space_of_IsSpaceFree : (s : String) → IsSpaceFree s → trim_space s ≡ s
unfolding trim_space
trim_space_of_IsSpaceFree [] h = refl
trim_space_of_IsSpaceFree (c ∷ s) (p, h) =
    rw (trim_left_of_StartsBare (c ∷ s) p) (trim_right_of_IsSpaceFree (c ∷ s) (p, h))

pub trim_dot-IsSpaceFree : (s : String) → IsSpaceFree s → IsSpaceFree (trim_dot s)
unfolding trim_dot
trim_dot-IsSpaceFree [] h = tt
trim_dot-IsSpaceFree (c ∷ s) (p, h) = elim (Bool-cases (s == "" && eqb (code c) b'.')) [
  | inl gone ↦ rw gone tt
  | inr kept ↦ rw kept (p, trim_dot-IsSpaceFree s h)
]
