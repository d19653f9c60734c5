-- ===== src/Vector/Back.antt =====
-- src/vector.c, what the loops over `vector_iterator_prev` find.
use mathlib.Core.List.{append_assoc}
use sngrep.Common.{
  ℕ, zero, suc, ◌+◌, ◌<◌, ◌≡◌, refl, sym, ◌∙◌, ap, Bool, false, none, some, List, [], ◌∷◌, ◌++◌,
  ◌==◌, if◌then◌else◌, ◌>>=◌, arith, length, Bool-cases, inl, inr,
}
use sngrep.Common.Int.{pos, negsuc, ◌-ℤ◌, eq_ℤ}
use sngrep.Vector.{Ptr, null, Vector, item}
use sngrep.Vector.Holds.{Holds, item-mid}
use sngrep.Vector.Iter.{Iter, prev, prev_loop, item_of, last_such}
use sngrep.Vector.Walk.{item_ne_null}

-- A list turned round, in front of another.
abbrev pub rev_onto : List Ptr → List Ptr → List Ptr
rev_onto [] ys = ys
rev_onto (x ∷ xs) ys = rev_onto xs (x ∷ ys)

-- The first item that passes a test, NULL if there is none.
abbrev pub first_such : (Ptr → Bool) → List Ptr → Ptr
first_such test [] = null
first_such test (x ∷ xs) = if test x then x else first_such test xs

rev_onto-append : (xs ys : List Ptr) → rev_onto xs ys ≡ rev_onto xs [] ++ ys
rev_onto-append [] ys = refl
rev_onto-append (x ∷ xs) ys =
    rev_onto-append xs (x ∷ ys)
    ∙ sym (append_assoc (rev_onto xs []) (x ∷ []) ys)
    ∙ ap (λ l. l ++ ys) (sym (rev_onto-append xs (x ∷ [])))

pub rev_onto-rev_onto : (a b c : List Ptr) → rev_onto (rev_onto a b) c ≡ rev_onto b (a ++ c)
rev_onto-rev_onto [] b c = refl
rev_onto-rev_onto (x ∷ a) b c = rev_onto-rev_onto a (x ∷ b) c

pub length-rev_onto : (xs ys : List Ptr) → length (rev_onto xs ys) ≡ length xs + length ys
length-rev_onto [] ys = omega arith
length-rev_onto (x ∷ xs) ys = omega (arith, length-rev_onto xs (x ∷ ys))

pos-prev : (i : ℕ) → pos (suc i) -ℤ pos 1 ≡ pos i
unfolding ◌-ℤ◌
pos-prev i = ground arith

zero-prev : pos 0 -ℤ pos 1 ≡ negsuc 0
unfolding ◌-ℤ◌
zero-prev = refl

pos-started : (i : ℕ) → eq_ℤ (pos i) (negsuc 0) ≡ false
pos-started i = ground arith

module _ {v : Vector} {xs : List Ptr} (h : Holds v xs) where
  -- An iterator behind the first `i` items.
  abbrev pub behind_items : ℕ → Iter
  behind_items i = record { current = pos i; vector = some v; filter = none }

  prev-cons :
      (r : Ptr) (rs ys : List Ptr)
      → rev_onto (r ∷ rs) ys ≡ xs
      → ((r == null) ≡ false)
        × (prev (behind_items (length (r ∷ rs))) ≡ some (r, behind_items (length rs)))
  unfolding prev prev_loop item_of
  prev-cons r rs ys e =
      let split : rev_onto rs [] ++ r ∷ ys ≡ xs = sym (rev_onto-append rs (r ∷ ys)) ∙ e in
      let ne = item_ne_null h none (rev_onto rs []) ys r split in
      let eq : (r == null) ≡ false = ground (arith, ne) in
      let back : pos (suc (length rs)) -ℤ pos 1 ≡ pos (length rs) = pos-prev (length rs) in
      let read : item v (pos (length rs)) ≡ some r =
        item-mid h (rev_onto rs []) ys r (length rs) split (omega (arith, length-rev_onto rs [])) in
      (eq, rw (pos-started (suc (length rs)), back, read, ◌>>=◌, eq, back) refl)

  -- The loop back from the items `rs`, the last of them first, finds the first that passes.
  pub last_such-first :
      (test : Ptr → Bool) (rs ys : List Ptr) (k : ℕ)
      → rev_onto rs ys ≡ xs
      → length rs < k
      → last_such k test (behind_items (length rs)) ≡ some (first_such test rs)
  unfolding last_such prev prev_loop item_of item
  last_such-first test rs ys zero e m = absurd (omega arith)
  last_such-first test [] ys (suc k) e m = rw (zero-prev, item, ◌>>=◌) refl
  last_such-first test (r ∷ rs) ys (suc k) e m =
      let (ne, step) = prev-cons r rs ys e in
      elim (Bool-cases (test r)) [
        | inl y ↦ rw (step, ◌>>=◌, ne, y) refl
        | inr n ↦ rw (step, ◌>>=◌, ne, n) (last_such-first test rs (r ∷ ys) k e (omega arith))
      ]
