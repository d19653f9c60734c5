-- ===== src/Vector/Settle.antt =====
-- The loop that the sorters of src/group.c and src/sip.c share: the item that was just appended
-- goes behind the last item that it may follow, and to the front if there is none.
use mathlib.Core.List.{append_assoc, append-nil}
use sngrep.Common.{
  ℕ, zero, suc, ◌+◌, ◌≡◌, refl, ◌≢◌, sym, ◌∙◌, ap, Option, some, List, [], ◌∷◌, ◌++◌, Bool, true,
  false, arith, length, if◌then◌else◌, All, ◌>>=◌, Bool-cases, inl, inr, subst, All-split, ◌||◌,
}
use sngrep.Common.Int.{pos}
use sngrep.Vector.{Ptr, Vector, item, insert}
use sngrep.Vector.Holds.{Holds, item-mid}
use sngrep.Vector.Append.{Keeps}
use sngrep.Vector.Insert.{insert-Keeps}

module _ (stays : Ptr → Ptr → Bool) where
  -- `for (i = count - 2; i >= 0; i--)`, with `i + 1` as the rounds left.
  unfoldable pub settle : Vector → Ptr → ℕ → Option Vector
  settle v x zero = insert v x (pos 0) >>= λ (w, _). some w
  settle v x (suc i) = item v (pos i) >>= λ y. elim (stays x y) [
    | true ↦ insert v x (pos (i + 1)) >>= λ (w, _). some w
    | false ↦ settle v x i
  ]

  abbrev pub any_stays : Ptr → List Ptr → Bool
  any_stays x [] = false
  any_stays x (y ∷ ys) = stays x y || any_stays x ys

  -- Behind the last item that `x` may follow.
  abbrev pub place : Ptr → List Ptr → List Ptr
  place x [] = x ∷ []
  place x (y ∷ ys) = if any_stays x (y ∷ ys) then y ∷ place x ys else x ∷ y ∷ ys

  abbrev pub NoneStays : Ptr → List Ptr → Type 0
  NoneStays x = All (λ y. stays x y ≡ false)

  any_stays-none : (x : Ptr) (ys : List Ptr) → NoneStays x ys → any_stays x ys ≡ false
  any_stays-none x [] h = refl
  any_stays-none x (y ∷ ys) h = rw (h.0) (any_stays-none x ys h.1)

  place-none : (x : Ptr) (ys : List Ptr) → NoneStays x ys → place x ys ≡ x ∷ ys
  place-none x [] h = refl
  place-none x (y ∷ ys) h = rw (any_stays-none x (y ∷ ys) h) refl

  any_stays-split :
      (x : Ptr) (pre post : List Ptr) (y : Ptr)
      → stays x y ≡ true
      → any_stays x (pre ++ y ∷ post) ≡ true
  any_stays-split x [] post y e = rw e refl
  any_stays-split x (z ∷ pre) post y e = ground (arith, any_stays-split x pre post y e)

  place-split :
      (x : Ptr) (pre post : List Ptr) (y : Ptr)
      → stays x y ≡ true
      → NoneStays x post
      → place x (pre ++ y ∷ post) ≡ pre ++ y ∷ x ∷ post
  place-split x [] post y e h =
      rw (any_stays-split x [] post y e) (ap (λ l. y ∷ l) (place-none x post h))
  place-split x (z ∷ pre) post y e h =
      rw (any_stays-split x (z ∷ pre) post y e) (ap (λ l. z ∷ l) (place-split x pre post y e h))

  pub length-place : (x : Ptr) (xs : List Ptr) → length (place x xs) ≡ suc (length xs)
  length-place x [] = refl
  length-place x (y ∷ ys) = ground (arith, length-place x ys)

unsnoc :
    (xs : List Ptr) (k : ℕ)
    → length xs ≡ suc k
    → (ys : List Ptr) × (y : Ptr) × (xs ≡ ys ++ y ∷ []) × (length ys ≡ k)
unsnoc [] k e = absurd (omega arith)
unsnoc (x ∷ []) k e = ([], x, refl, omega arith)
unsnoc (x ∷ z ∷ xs) zero e = absurd (omega arith)
unsnoc (x ∷ z ∷ xs) (suc k) e =
    let (ys, y, p, l) = unsnoc (z ∷ xs) k (omega arith) in
    (x ∷ ys, y, ap (λ l. x ∷ l) p, omega arith)

module _ (stays : Ptr → Ptr → Bool) {v : Vector} (xs : List Ptr) (x : Ptr) where
  settle_from :
      (k : ℕ) (pre post : List Ptr)
      → Holds v (xs ++ x ∷ [])
      → All (λ y. y ≢ x) xs
      → xs ≡ pre ++ post
      → length pre ≡ k
      → NoneStays stays x post
      → (w : Vector) × (settle stays v x k ≡ some w) × Keeps v w (place stays x xs)
  unfolding settle
  settle_from zero (y ∷ pre) post h d e l n = absurd (omega arith)
  settle_from zero [] post h d e l n =
      let (w, run, k) =
        insert-Keeps [] post x (subst (λ l. Holds v (l ++ x ∷ [])) e h)
          (subst (All (λ y. y ≢ x)) e d) in
      (w, rw (run, ◌>>=◌) refl, rw (e, place-none stays x post n) k)
  settle_from (suc k) pre post h d e l n =
      let (ys, y, p, m) = unsnoc pre k l in
      let at : xs ++ x ∷ [] ≡ ys ++ y ∷ (post ++ x ∷ []) =
        ap (λ l. l ++ x ∷ []) (e ∙ ap (λ l. l ++ post) p)
        ∙ append_assoc (ys ++ y ∷ []) post (x ∷ [])
        ∙ append_assoc ys (y ∷ []) (post ++ x ∷ []) in
      let split : xs ≡ ys ++ y ∷ post = e ∙ ap (λ l. l ++ post) p ∙ append_assoc ys (y ∷ []) post in
      let read = item-mid h ys (post ++ x ∷ []) y k (sym at) (sym m) in
      elim (Bool-cases (stays x y)) [
        | inl t ↦
            let whole : xs ++ x ∷ [] ≡ pre ++ (post ++ x ∷ []) =
              ap (λ l. l ++ x ∷ []) e ∙ append_assoc pre post (x ∷ []) in
            let (w, run, keeps) =
              insert-Keeps pre post x (subst (Holds v) whole h)
                (All-split (λ z. z ≢ x) pre post (subst (All (λ z. z ≢ x)) e d)).1 in
            let here : k + 1 ≡ length pre = omega (arith, l) in
            (
              w,
              rw (read, ◌>>=◌, t, here, run) refl,
              subst (Keeps v w)
                  (ap (λ l. l ++ x ∷ post) p
                    ∙ append_assoc ys (y ∷ []) (x ∷ post)
                    ∙ sym (ap (place stays x) split ∙ place-split stays x ys post y t n))
                  keeps,
            )
        | inr f ↦
            let (w, run, keeps) = settle_from k ys (y ∷ post) h d split m (f, n) in
            (w, rw (read, ◌>>=◌, f) run, keeps)
      ]

  -- The loop moves the last item to its place among the others.
  pub settle-place :
      Holds v (xs ++ x ∷ [])
      → All (λ y. y ≢ x) xs
      → (w : Vector) × (settle stays v x (length xs) ≡ some w) × Keeps v w (place stays x xs)
  settle-place h d = settle_from (length xs) xs [] h d (sym (append-nil xs)) refl tt
