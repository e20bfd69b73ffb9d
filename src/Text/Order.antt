-- ===== src/Text/Order.antt =====
-- The order of texts is strict and total.
use Prim.Native.Char.{code}
use Prim.Native.String.{[], ◌∷◌}
use text.Mathlib.TextEquality.{Char-path}
use astradns_operator.Base.{String, true, false, ◌≡◌, refl, arith}
use astradns_operator.Text.{text_less}

module _ where
  pub text_less-asym : (s t : String) → text_less s t ≡ true → text_less t s ≡ false
  unfolding text_less
  text_less-asym [] [] h = cc
  text_less-asym [] (d ∷ t) h = refl
  text_less-asym (c ∷ s) [] h = cc
  text_less-asym (c ∷ s) (d ∷ t) h = ground (arith, text_less-asym s t)

  pub text_less-negative_trans :
      (s t u : String) → text_less s t ≡ false → text_less t u ≡ false → text_less s u ≡ false
  unfolding text_less
  text_less-negative_trans [] [] u h k = k
  text_less-negative_trans [] (d ∷ t) u h k = cc
  text_less-negative_trans (c ∷ s) t [] h k = refl
  text_less-negative_trans (c ∷ s) [] (e ∷ u) h k = cc
  text_less-negative_trans (c ∷ s) (d ∷ t) (e ∷ u) h k =
      ground (arith, text_less-negative_trans s t u)

  pub text_less_total : (s t : String) → text_less s t ≡ false → text_less t s ≡ false → s ≡ t
  unfolding text_less
  text_less_total [] [] h k = refl
  text_less_total [] (d ∷ t) h k = cc
  text_less_total (c ∷ s) [] h k = cc
  text_less_total (c ∷ s) (d ∷ t) h k =
      let same : code c ≡ code d = ground arith in
      cc (Char-path c d same, text_less_total s t (ground arith) (ground arith))
