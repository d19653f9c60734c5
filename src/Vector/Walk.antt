-- ===== src/Vector/Walk.antt =====
-- src/vector.c, what the iterator loops visit.
use mathlib.Core.List.{append_assoc, append-nil}
use sngrep.Common.{
  All-split, subst, length-append, ℕ, zero, suc, ◌+◌, ◌≤◌, ◌<◌, ◌≡◌, refl, ◌≢◌, sym, ◌∙◌, ap,
  Option, none, some, List, [], ◌∷◌, ◌++◌, Bool, true, false, arith, length, ◌==◌, if◌then◌else◌,
  All, ◌>>=◌, Bool-cases, inl, inr, filter, fold_steps,
}
use sngrep.Common.Int.{ℤ, pos, negsuc, ◌+ℤ◌, ltb_ℤ, to_int-small}
use sngrep.Vector.{Ptr, null, Vector}
use sngrep.Vector.Holds.{Holds, item-mid, item-end}
use sngrep.Vector.Iter.{Iter, item_of, count_of, passes, next_loop, next, for_each, each}

-- The place before index `i`: -1 for 0.
abbrev pub before : ℕ → ℤ
before zero = negsuc 0
before (suc i) = pos i

-- An iterator over `v` that is about to look at index `i`.
abbrev pub iter_at : Vector → Option (Ptr → Bool) → ℕ → Iter
iter_at v f i = record { current = before i; vector = some v; filter = f }

pub pos-next : (i : ℕ) → pos i +ℤ pos 1 ≡ pos (suc i)
unfolding ◌+ℤ◌
pos-next i = ground arith

before-next : (i : ℕ) → before i +ℤ pos 1 ≡ pos i
unfolding ◌+ℤ◌
before-next zero = refl
before-next (suc i) = ground arith

before-lt : (i n : ℕ) → i ≤ n → ltb_ℤ (before i) (pos n) ≡ true
before-lt zero n l = ground arith
before-lt (suc i) n l = ground arith

-- The first item from index `i` on that passes, with the index behind it.
abbrev pub seek : Option (Ptr → Bool) → List Ptr → ℕ → Ptr × ℕ
seek f [] i = (null, suc i)
seek f (x ∷ xs) i = if passes f x then (x, suc i) else seek f xs (suc i)

module _ {v : Vector} {xs : List Ptr} (h : Holds v xs) (f : Option (Ptr → Bool)) where
  pub item_ne_null : (pre ys : List Ptr) (y : Ptr) → pre ++ y ∷ ys ≡ xs → y ≢ null
  item_ne_null pre ys y e =
      (All-split (λ x. x ≢ 0) pre (y ∷ ys) (subst (All (λ x. x ≢ 0)) (sym e) h.non_null)).1.0

  -- The loop of `vector_iterator_next`, in front of the items `ys`.
  next_loop-seek :
      (k : ℕ) (c : ℤ) (pre ys : List Ptr) (i : ℕ)
      → c +ℤ pos 1 ≡ pos i
      → pre ++ ys ≡ xs
      → i ≡ length pre
      → length ys < k
      → next_loop k (record { current = c; vector = some v; filter = f })
        ≡ some ((seek f ys i).0, iter_at v f (seek f ys i).1)
  unfolding next_loop item_of
  next_loop-seek zero c pre ys i e' e l m = absurd (omega arith)
  next_loop-seek (suc k) c pre [] i e' e l m =
      rw (e', item-end h i (rw (← e, append-nil pre) (omega arith)), ◌>>=◌, e') refl
  next_loop-seek (suc k) c pre (y ∷ ys) i e' e l m =
      let ne : (y == null) ≡ false = ground (arith, item_ne_null pre ys y e) in
      rw (e', item-mid h pre ys y i e l, ◌>>=◌, ne)
        (elim (Bool-cases (passes f y)) [
          | inl p ↦ rw (p, e') refl
          | inr p ↦
              rw (p, e')
                (next_loop-seek k (pos i) (pre ++ y ∷ []) ys (suc i) (pos-next i)
                  (append_assoc pre (y ∷ []) ys ∙ e) (omega (arith, length-append pre (y ∷ [])))
                  (omega arith))
        ])

  -- `vector_iterator_next` from index `i` on, up to the end of the vector.
  pub next-seek :
      (pre ys : List Ptr) (i : ℕ)
      → pre ++ ys ≡ xs
      → i ≡ length pre
      → next (iter_at v f i) ≡ some ((seek f ys i).0, iter_at v f (seek f ys i).1)
  unfolding next count_of
  next-seek pre ys i e l =
      let size : length xs ≡ length pre + length ys = rw (← e, length-append pre ys) refl in
      rw
        (
          to_int-small v.count (omega (arith, h.few)),
          before-lt i v.count (omega (arith, h.counted)),
        )
        (next_loop-seek (suc v.count) (before i) pre ys i (before-next i) e l
          (omega (arith, h.counted)))

  pub next-cons_take :
      (pre ys : List Ptr) (y : Ptr) (i : ℕ)
      → pre ++ y ∷ ys ≡ xs
      → i ≡ length pre
      → passes f y ≡ true
      → next (iter_at v f i) ≡ some (y, iter_at v f (suc i))
  next-cons_take pre ys y i e l p = next-seek pre (y ∷ ys) i e l ∙ (rw p refl)

  next-cons_skip :
      (pre ys : List Ptr) (y : Ptr) (i : ℕ)
      → pre ++ y ∷ ys ≡ xs
      → i ≡ length pre
      → passes f y ≡ false
      → next (iter_at v f i) ≡ next (iter_at v f (suc i))
  next-cons_skip pre ys y i e l p =
      next-seek pre (y ∷ ys) i e l
      ∙ (rw p refl)
      ∙ sym (
          next-seek (pre ++ y ∷ []) ys (suc i) (append_assoc pre (y ∷ []) ys ∙ e)
            (omega (arith, length-append pre (y ∷ []))))

  module _ {ℓ} {S : Type ℓ} (body : S → Ptr → Option S) where
    for_each-filter :
        (k : ℕ) (s : S) (pre ys : List Ptr) (i : ℕ)
        → pre ++ ys ≡ xs
        → i ≡ length pre
        → length ys < k
        → for_each k body (iter_at v f i) s ≡ (
            fold_steps body s (filter (passes f) ys) >>= λ s'.
            some (s', iter_at v f (suc (length xs))))
    unfolding for_each
    for_each-filter zero s pre ys i e l m = absurd (omega arith)
    for_each-filter (suc k) s pre [] i e l m =
        let size : i ≡ length xs = l ∙ ap length (sym (append-nil pre) ∙ e) in
        rw (next-seek pre [] i e l, ◌>>=◌) (ap (λ n. some (s, iter_at v f (suc n))) size)
    for_each-filter (suc k) s pre (y ∷ ys) i e l m = elim (Bool-cases (passes f y)) [
      | inl p ↦
          let ne : (y == null) ≡ false = ground (arith, item_ne_null pre ys y e) in
          let rest = λ (s' : S).
            for_each-filter k s' (pre ++ y ∷ []) ys (suc i) (append_assoc pre (y ∷ []) ys ∙ e)
              (omega (arith, length-append pre (y ∷ []))) (omega arith) in
          rw (next-cons_take pre ys y i e l p, p, ◌>>=◌, ne)
            (elim (body s y)
              as (λ o. (o >>= λ s'. for_each k body (iter_at v f (suc i)) s') ≡ (
                (o >>= λ s'. fold_steps body s' (filter (passes f) ys)) >>= λ s'.
                some (s', iter_at v f (suc (length xs))))) [ none ↦ refl | some s' ↦ rest s' ])
      | inr p ↦
          rw (next-cons_skip pre ys y i e l p, p)
            (for_each-filter (suc k) s (pre ++ y ∷ []) ys (suc i) (append_assoc pre (y ∷ []) ys ∙ e)
              (omega (arith, length-append pre (y ∷ []))) (omega arith))
    ]

    -- A loop over `vector_iterator_next` from the start of a vector of fewer than 2^31 items
    -- visits just the items that pass, each once and in order, and ends as the run of its body
    -- over them does.
    pub each-filter :
        (s : S) → each body (iter_at v f 0) s ≡ fold_steps body s (filter (passes f) xs)
    unfolding count_of
    each-filter s =
        rw (for_each-filter (suc v.count) s [] xs 0 refl refl (omega (arith, h.counted)))
          (elim (fold_steps body s (filter (passes f) xs))
            as (λ o.
              ((o >>= λ s'. some (s', iter_at v f (suc (length xs)))) >>= λ (s', _). some s') ≡ o) [
                | none ↦ refl
                | some s' ↦ refl
              ])
