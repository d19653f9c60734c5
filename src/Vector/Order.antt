-- ===== src/Vector/Order.antt =====
-- What placing items one by one makes of a list: an ordered list of the same items.
use mathlib.Core.List.{Perm, perm_middle, append-nil}
use mathlib.Core.List.Perm
use sngrep.Common.{◌≡◌, List, [], ◌∷◌, ◌++◌, Bool, true, false, All, Bool-cases, inl, inr}
use sngrep.Vector.{Ptr}
use sngrep.Vector.Settle.{place, any_stays}
use sngrep.Vector.Build.{place_all}

-- Each item stands in `R` to all behind it.
abbrev pub Sorted : (Ptr → Ptr → Type 0) → List Ptr → Type 0
Sorted R [] = Unit
Sorted R (x ∷ xs) = All (R x) xs × Sorted R xs

-- A test for `x` to follow `y` that agrees with a transitive order.
pub record Decides (R : Ptr → Ptr → Type 0) (stays : Ptr → Ptr → Bool) : Type 0 where
  pub trans : (x y z : Ptr) → R x y → R y z → R x z
  pub follows : (x y : Ptr) → stays x y ≡ true → R y x
  pub precedes : (x y : Ptr) → stays x y ≡ false → R x y

module _ {R : Ptr → Ptr → Type 0} {stays : Ptr → Ptr → Bool} (d : Decides R stays) where
  All-place : (a x : Ptr) (xs : List Ptr) → R a x → All (R a) xs → All (R a) (place stays x xs)
  All-place a x [] l h = (l, tt)
  All-place a x (y ∷ ys) l h = elim (Bool-cases (any_stays stays x (y ∷ ys))) [
    | inl e ↦ rw e (h.0, All-place a x ys l h.1)
    | inr e ↦ rw e (l, h)
  ]

  -- Something that `x` may follow comes before `x`.
  any_stays-before :
      (a x : Ptr) (xs : List Ptr) → All (R a) xs → any_stays stays x xs ≡ true → R a x
  any_stays-before a x [] h e = cc
  any_stays-before a x (y ∷ ys) h e = elim (Bool-cases (stays x y)) [
    | inl t ↦ d.trans a y x h.0 (d.follows x y t)
    | inr f ↦ any_stays-before a x ys h.1 (rw f at e)
  ]

  none_stays-before : (x : Ptr) (xs : List Ptr) → any_stays stays x xs ≡ false → All (R x) xs
  none_stays-before x [] e = tt
  none_stays-before x (y ∷ ys) e = elim (Bool-cases (stays x y)) [
    | inl t ↦ cc (rw t at e)
    | inr f ↦ (d.precedes x y f, none_stays-before x ys (rw f at e))
  ]

  place-Sorted : (x : Ptr) (xs : List Ptr) → Sorted R xs → Sorted R (place stays x xs)
  place-Sorted x [] s = (tt, tt)
  place-Sorted x (y ∷ ys) s = elim (Bool-cases (stays x y)) [
    | inl t ↦ rw t (All-place y x ys (d.follows x y t) s.0, place-Sorted x ys s.1)
    | inr f ↦ elim (Bool-cases (any_stays stays x ys)) [
      | inl e ↦
          rw (f, e) (All-place y x ys (any_stays-before y x ys s.0 e) s.0, place-Sorted x ys s.1)
      | inr e ↦ rw (f, e) ((d.precedes x y f, none_stays-before x ys e), s)
    ]
  ]

  pub place_all-Sorted : (ys xs : List Ptr) → Sorted R xs → Sorted R (place_all (place stays) xs ys)
  place_all-Sorted [] xs s = s
  place_all-Sorted (y ∷ ys) xs s = place_all-Sorted ys (place stays y xs) (place-Sorted y xs s)

module _ (stays : Ptr → Ptr → Bool) where
  pub place-perm : (x : Ptr) (xs : List Ptr) → Perm (place stays x xs) (x ∷ xs)
  place-perm x [] = Perm.refl (x ∷ [])
  place-perm x (y ∷ ys) = elim (Bool-cases (any_stays stays x (y ∷ ys))) [
    | inl e ↦ rw e (Perm.trans (Perm.cons y (place-perm x ys)) (Perm.swap x y ys))
    | inr e ↦ rw e (Perm.refl (x ∷ y ∷ ys))
  ]

  pub place_all-perm : (ys xs : List Ptr) → Perm (place_all (place stays) xs ys) (xs ++ ys)
  place_all-perm [] xs = rw (append-nil xs) (Perm.refl xs)
  place_all-perm (y ∷ ys) xs =
      Perm.trans (place_all-perm ys (place stays y xs))
        (Perm.trans (Perm.append (place-perm y xs) (Perm.refl ys)) (Perm.symm (perm_middle xs ys)))
