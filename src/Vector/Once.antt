-- ===== src/Vector/Once.antt =====
-- Lists without repetition under what removes an item and what sorts one in.
use sngrep.Common.{
  ◌≤◌, ◌≡◌, refl, ◌∙◌, Bool, true, false, List, [], ◌∷◌, ◌==◌, ◌&&◌, ◌||◌, not, arith, length,
  Bool-cases, inl, inr,
}
use sngrep.Vector.{Ptr}
use sngrep.Vector.Remove.{has, erase}
use sngrep.Vector.Settle.{place, any_stays}
use sngrep.Vector.Build.{place_all, ReadyAll}
use sngrep.Vector.Sorting.{Fresh, Distinct}

pub has-Fresh : (x : Ptr) (xs : List Ptr) → Fresh x xs → has x xs ≡ false
has-Fresh x [] h = refl
has-Fresh x (y ∷ ys) h = ground (arith, has-Fresh x ys h.1, h.0)

pub Fresh-has : (x : Ptr) (xs : List Ptr) → has x xs ≡ false → Fresh x xs
Fresh-has x [] h = tt
Fresh-has x (y ∷ ys) h = elim (Bool-cases (y == x)) [
  | inl e ↦ cc (rw e at h)
  | inr n ↦ (ground arith, Fresh-has x ys (rw n at h))
]

pub has-erase :
    (p c : Ptr) (xs : List Ptr) → Distinct xs → has p (erase c xs) ≡ (has p xs && not (p == c))
has-erase p c [] d = refl
has-erase p c (x ∷ xs) d = ground (arith, has-erase p c xs d.1, has-Fresh x xs d.0)

Fresh-erase : (x c : Ptr) (xs : List Ptr) → Fresh x xs → Fresh x (erase c xs)
Fresh-erase x c [] h = tt
Fresh-erase x c (y ∷ ys) h = elim (Bool-cases (y == c)) [
  | inl e ↦ rw e h.1
  | inr n ↦ rw n (h.0, Fresh-erase x c ys h.1)
]

pub Distinct-erase : (c : Ptr) (xs : List Ptr) → Distinct xs → Distinct (erase c xs)
Distinct-erase c [] d = tt
Distinct-erase c (x ∷ xs) d = elim (Bool-cases (x == c)) [
  | inl e ↦ rw e d.1
  | inr n ↦ rw n (Fresh-erase x c xs d.0, Distinct-erase c xs d.1)
]

pub has-place :
    (stays : Ptr → Ptr → Bool) (p x : Ptr) (xs : List Ptr)
    → has p (place stays x xs) ≡ (x == p || has p xs)
has-place stays p x [] = ground arith
has-place stays p x (y ∷ ys) = elim (Bool-cases (any_stays stays x (y ∷ ys))) [
  | inl e ↦ rw e (ground (arith, has-place stays p x ys))
  | inr e ↦ rw e (ground arith)
]

pub Distinct-place :
    (stays : Ptr → Ptr → Bool) (x : Ptr) (xs : List Ptr)
    → Fresh x xs
    → Distinct xs
    → Distinct (place stays x xs)
Distinct-place stays x [] f d = (tt, tt)
Distinct-place stays x (y ∷ ys) f d = elim (Bool-cases (any_stays stays x (y ∷ ys))) [
  | inl e ↦
      let out : has y (place stays x ys) ≡ false =
        has-place stays y x ys ∙ ground (arith, has-Fresh y ys d.0, f.0) in
      rw e (Fresh-has y (place stays x ys) out, Distinct-place stays x ys f.1 d.1)
  | inr e ↦ rw e (f, d)
]

-- A list of at most one item that has `c` has nothing else.
pub single_view : (c : Ptr) (l : List Ptr) → length l ≤ 1 → has c l ≡ true → l ≡ c ∷ []
single_view c [] h e = cc
single_view c (x ∷ []) h e = ground arith
single_view c (x ∷ y ∷ l) h e = absurd (omega arith)

pub place_all-Distinct :
    (stays : Ptr → Ptr → Bool) (ys xs : List Ptr)
    → ReadyAll Fresh (place stays) xs ys
    → Distinct xs
    → Distinct (place_all (place stays) xs ys)
place_all-Distinct stays [] xs r d = d
place_all-Distinct stays (y ∷ ys) xs r d =
    place_all-Distinct stays ys (place stays y xs) r.1 (Distinct-place stays y xs r.0 d)
