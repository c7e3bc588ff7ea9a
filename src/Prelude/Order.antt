-- ===== src/Prelude/Order.antt =====
-- Lists that keep the order of another and may leave items out.
use mathlib.Core.List.{List, [], ◌∷◌, ◌++◌}

pub data Subsequence {ℓ} {A : Type ℓ} : List A → List A → Type ℓ where
  none_kept : Subsequence [] []
  left_out : {y : A} {xs ys : List A} → Subsequence xs ys → Subsequence xs (y ∷ ys)
  one_kept : {x : A} {xs ys : List A} → Subsequence xs ys → Subsequence (x ∷ xs) (x ∷ ys)

module _ {ℓ} {A : Type ℓ} where
  pub Subsequence-append :
      {xs ys : List A} (z : A) → Subsequence xs ys → Subsequence (xs ++ z ∷ []) (ys ++ z ∷ [])
  Subsequence-append z none_kept = one_kept none_kept
  Subsequence-append z (left_out p) = left_out (Subsequence-append z p)
  Subsequence-append z (one_kept p) = one_kept (Subsequence-append z p)

  pub Subsequence-more :
      {xs ys : List A} (z : A) → Subsequence xs ys → Subsequence xs (ys ++ z ∷ [])
  Subsequence-more z none_kept = left_out none_kept
  Subsequence-more z (left_out p) = left_out (Subsequence-more z p)
  Subsequence-more z (one_kept p) = one_kept (Subsequence-more z p)

  pub Subsequence-refl : (xs : List A) → Subsequence xs xs
  Subsequence-refl [] = none_kept
  Subsequence-refl (x ∷ xs) = one_kept (Subsequence-refl xs)

  pub Subsequence-trans :
      {ys zs : List A} → Subsequence ys zs → {xs : List A} → Subsequence xs ys → Subsequence xs zs
  Subsequence-trans none_kept p = p
  Subsequence-trans (left_out q) p = left_out (Subsequence-trans q p)
  Subsequence-trans (one_kept q) (left_out p) = left_out (Subsequence-trans q p)
  Subsequence-trans (one_kept q) (one_kept p) = one_kept (Subsequence-trans q p)

  pub Subsequence-without :
      (first : List A) (x : A) (rest : List A) → Subsequence (first ++ rest) (first ++ x ∷ rest)
  Subsequence-without [] x rest = left_out (Subsequence-refl rest)
  Subsequence-without (a ∷ first) x rest = one_kept (Subsequence-without first x rest)
