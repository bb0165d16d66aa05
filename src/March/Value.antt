-- ===== src/March/Value.antt =====
-- The values that the `fetch_..._return_value` methods of py_etiss_xvalid/entity/march/ give, and
-- Python's `==` on them.
use etiss_xvalid.Base.{ℕ, ◌*◌, ◌^◌, Bool, true, false, ◌&&◌, List, [], ◌∷◌, ◌==◌}
use etiss_xvalid.Base.Text.{Text, text_eq}
use etiss_xvalid.Base.Float.{PyFloat, finite, float_eq}

pub data Scalar : Type 0 where
  none_value : Scalar
  int_value : ℕ → Scalar
  float_value : PyFloat → Scalar

-- A struct gives a list of scalars, and a union in memory the list of its words' texts.
pub data ReturnValue : Type 0 where
  scalar : Scalar → ReturnValue
  scalars : List Scalar → ReturnValue
  texts : List Text → ReturnValue

-- an `int` as a `float`, without rounding: `==` between the two is exact
abbrev exact : ℕ → PyFloat
exact n = finite false (n * 2 ^ 1074)

unfoldable pub scalar_eq : Scalar → Scalar → Bool
unfolding float_eq
scalar_eq none_value none_value = true
scalar_eq (int_value m) (int_value n) = m == n
scalar_eq (int_value m) (float_value g) = float_eq (exact m) g
scalar_eq (float_value f) (int_value n) = float_eq f (exact n)
scalar_eq (float_value f) (float_value g) = float_eq f g
scalar_eq _ _ = false

unfoldable pub scalars_eq : List Scalar → List Scalar → Bool
unfolding scalar_eq
scalars_eq [] [] = true
scalars_eq (a ∷ xs) (b ∷ ys) = scalar_eq a b && scalars_eq xs ys
scalars_eq _ _ = false

unfoldable pub texts_eq : List Text → List Text → Bool
unfolding text_eq
texts_eq [] [] = true
texts_eq (s ∷ ss) (t ∷ ts) = text_eq s t && texts_eq ss ts
texts_eq _ _ = false

unfoldable pub return_value_eq : ReturnValue → ReturnValue → Bool
unfolding scalar_eq scalars_eq texts_eq
return_value_eq (scalar a) (scalar b) = scalar_eq a b
return_value_eq (scalars xs) (scalars ys) = scalars_eq xs ys
return_value_eq (texts ss) (texts ts) = texts_eq ss ts
return_value_eq (scalars []) (texts []) = true
return_value_eq (texts []) (scalars []) = true
return_value_eq _ _ = false

-- `rv is None`
abbrev pub is_none : ReturnValue → Bool
is_none (scalar none_value) = true
is_none _ = false
