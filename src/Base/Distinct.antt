-- ===== src/Base/Distinct.antt =====
-- A list of distinct texts among others is no longer than they are.
use mathlib.Core.Path.{◌≡◌, refl}
use mathlib.Core.Bool.{true, false}
use mathlib.Core.List.{List, [], ◌∷◌}
use Prim.Native.Nat.{suc, ◌≤◌}
use native.Mathlib.Omega.{arith}
use tdrive_aliyunpan.Base.Tests.{Bool-cases, if◌then◌else◌}
use mathlib.Core.Logic.{inl, inr}
use tdrive_aliyunpan.Base.Lists.{length, All}
use tdrive_aliyunpan.Base.Texts.{Text, text_eq, text_eq_iff, text_eq_sym, contains, IsDistinct}

remove : Text → List Text → List Text
remove x [] = []
remove x (y ∷ ys) = if text_eq y x then ys else y ∷ remove x ys

length-remove :
    (x : Text) (ys : List Text) → contains ys x ≡ true → suc (length (remove x ys)) ≡ length ys
unfolding remove
length-remove x [] h = cc
length-remove x (y ∷ ys) h = elim (Bool-cases (text_eq y x)) [
  | inl e ↦ rw e refl
  | inr e ↦ ground (arith, e, length-remove x ys)
]

contains-remove :
    (x z : Text) (ys : List Text)
    → text_eq z x ≡ false
    → contains ys z ≡ true
    → contains (remove x ys) z ≡ true
unfolding remove
contains-remove x z [] h k = k
contains-remove x z (y ∷ ys) h k = elim (Bool-cases (text_eq y x)) [
  | inl e ↦ ground (arith, e, text_eq_iff y x, text_eq_iff y z, text_eq_iff z x, text_eq_sym z x)
  | inr e ↦ ground (arith, e, contains-remove x z ys h)
]

All-remove :
    (x : Text) (xs ys : List Text)
    → contains xs x ≡ false
    → All (λ z. contains ys z ≡ true) xs
    → All (λ z. contains (remove x ys) z ≡ true) xs
All-remove x [] ys h k = tt
All-remove x (z ∷ xs) ys h k =
    (contains-remove x z ys (ground (arith, h)) k.0, All-remove x xs ys (ground (arith, h)) k.1)

pub distinct-le :
    (xs ys : List Text) → IsDistinct xs → All (λ z. contains ys z ≡ true) xs → length xs ≤ length ys
distinct-le [] ys h k = ground arith
distinct-le (x ∷ xs) ys h k =
    let rest = distinct-le xs (remove x ys) h.1 (All-remove x xs ys h.0 k.1) in
    let cut = length-remove x ys k.0 in omega (arith, rest, cut)
