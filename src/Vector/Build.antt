-- ===== src/Vector/Build.antt =====
-- src/vector.c, `vector_append_vector`, `vector_clone` and `vector_copy_if` as functions of lists.
use mathlib.Core.List.{append_assoc, append-nil}
use sngrep.Common.{
  Bool-cases, inl, inr, subst, length-filter-le, ℕ, ◌+◌, ◌*◌, ◌≤◌, ◌<◌, ◌≡◌, refl, ◌≢◌, sym, ◌∙◌,
  ap, Bool, Option, none, some, List, [], ◌∷◌, ◌++◌, arith, length, ◌>>=◌, All, filter, fold_steps,
  ◌^◌,
}
use sngrep.Vector.{Ptr, null, Vector, create, set_sorter, set_destroyer}
use sngrep.Vector.Iter.{iterator, set_filter, passes}
use sngrep.Vector.Holds.{Holds, create-Holds}
use sngrep.Vector.Append.{Places, append-place, Always, behind, no_sorter-Places}
use sngrep.Vector.Walk.{each-filter}
use sngrep.Vector.Copy.{append_item, append_vector, clone, copy_if}

-- The list after its sorter placed the items of another one by one.
abbrev pub place_all : (Ptr → List Ptr → List Ptr) → List Ptr → List Ptr → List Ptr
place_all place xs [] = xs
place_all place xs (y ∷ ys) = place_all place (place y xs) ys

-- Each item meets the sorter's condition when its turn comes.
abbrev pub ReadyAll :
    (Ptr → List Ptr → Type 0) → (Ptr → List Ptr → List Ptr) → List Ptr → List Ptr → Type 0
ReadyAll Ready place xs [] = Unit
ReadyAll Ready place xs (y ∷ ys) = Ready y xs × ReadyAll Ready place (place y xs) ys

-- `w` holds `xs`, is set up like `v`, and grew at most once for each of `n` items.
pub record Filled (v w : Vector) (xs : List Ptr) (n : ℕ) : Type 0 where
  pub limit_le : w.limit ≤ v.limit + v.step * n
  pub holds : Holds w xs
  pub same_step : w.step ≡ v.step
  pub same_destroyer : w.destroyer ≡ v.destroyer
  pub same_sorter : w.sorter ≡ v.sorter

module _ {call : Ptr → Vector → Ptr → Option Vector} {f : Ptr} {Ready : Ptr → List Ptr → Type 0}
    {place : Ptr → List Ptr → List Ptr} (sorts : Places call f Ready place) where
  pub length-place_all : (xs ys : List Ptr) → length (place_all place xs ys) ≡ length xs + length ys
  length-place_all xs [] = omega arith
  length-place_all xs (y ∷ ys) =
      omega (arith, length-place_all (place y xs) ys, sorts.length-place y xs)

  pub fold-place_all :
      (ys xs : List Ptr) (v : Vector)
      → Holds v xs
      → v.sorter ≡ f
      → v.limit + v.step * length ys < 2 ^ 32
      → length xs + length ys < 2 ^ 31
      → All (λ y. y ≢ 0) ys
      → ReadyAll Ready place xs ys
      → (w : Vector) × (fold_steps (append_item call) v ys ≡ some w)
        × Filled v w (place_all place xs ys) (length ys)
  unfolding append_item
  fold-place_all [] xs v h e room few n r = (
    v,
    refl,
    record {
      limit_le = omega arith;
      holds = h;
      same_step = refl;
      same_destroyer = refl;
      same_sorter = refl;
    },
  )
  fold-place_all (y ∷ ys) xs v h e room few n r =
      let (u, run, b) = append-place sorts h e (grind arith) (omega arith) y n.0 r.0 in
      let room' : u.limit + u.step * length ys < 2 ^ 32 =
        rw b.same_step (grind (arith, b.limit_le)) in
      let (w, rest, k) =
        fold-place_all ys (place y xs) u b.holds (b.same_sorter ∙ e) room'
          (omega (arith, sorts.length-place y xs)) n.1 r.1 in
      (
        w,
        rw (run, ◌>>=◌) rest,
        record {
          limit_le =
              (let le : w.limit ≤ u.limit + v.step * length ys = rw b.same_step at k.limit_le in
                grind (arith, le, b.limit_le));
          holds = k.holds;
          same_step = k.same_step ∙ b.same_step;
          same_destroyer = k.same_destroyer ∙ b.same_destroyer;
          same_sorter = k.same_sorter ∙ b.same_sorter;
        },
      )

pub filter-none : (xs : List Ptr) → filter (passes none) xs ≡ xs
filter-none [] = refl
filter-none (x ∷ xs) = ap (λ l. x ∷ l) (filter-none xs)

module _ {call : Ptr → Vector → Ptr → Option Vector} {f : Ptr} {Ready : Ptr → List Ptr → Type 0}
    {place : Ptr → List Ptr → List Ptr} (sorts : Places call f Ready place) where
  -- `vector_append_vector` places the items of the source one by one, in their order.
  pub append_vector-place_all :
      {v u : Vector} {xs ys : List Ptr}
      → Holds v xs
      → Holds u ys
      → v.sorter ≡ f
      → v.limit + v.step * length ys < 2 ^ 32
      → length xs + length ys < 2 ^ 31
      → ReadyAll Ready place xs ys
      → (w : Vector) × (append_vector call (some v) (some u) ≡ some (0, some w))
        × Filled v w (place_all place xs ys) (length ys)
  unfolding append_vector iterator
  append_vector-place_all {v} {u} {xs} {ys} h g e room few r =
      let (w, run, k) = fold-place_all sorts ys xs v h e room few g.non_null r in
      (w, rw (each-filter g none (append_item call) v, filter-none ys, run) refl, k)

  -- `vector_clone` places the items again, in a new vector that is set up alike.
  pub clone-place_all :
      {v : Vector} {xs : List Ptr}
      → Holds v xs
      → v.sorter ≡ f
      → v.limit + v.step * length xs < 2 ^ 32
      → ReadyAll Ready place [] xs
      → (w : Vector) × (clone call (some v) ≡ some (some w))
        × Filled v w (place_all place [] xs) (length xs)
  unfolding clone iterator create set_sorter set_destroyer
  clone-place_all {v} {xs} h e room r =
      let fresh = set_sorter (set_destroyer (create v.limit v.step) v.destroyer) v.sorter in
      let step : fresh.step ≡ v.step = omega (arith, h.step_small) in
      let limit : fresh.limit ≡ v.limit = omega (arith, h.small) in
      let start = create-Holds v.limit v.step h.step_pos h.step_small h.small in
      let start' : Holds fresh [] = record {
        storage = start.storage;
        counted = start.counted;
        non_null = start.non_null;
        step_pos = start.step_pos;
        step_small = start.step_small;
        small = start.small;
        within = start.within;
        few = start.few;
      } in
      let (w, run, k) =
        fold-place_all sorts xs [] fresh start' e (rw (step, limit) room)
          (omega (arith, h.few, h.counted)) h.non_null r in
      (
        w,
        rw (each-filter h none (append_item call) fresh, filter-none xs, run) refl,
        record {
          limit_le = rw (step, limit) at k.limit_le;
          holds = k.holds;
          same_step = k.same_step ∙ step;
          same_destroyer = k.same_destroyer;
          same_sorter = k.same_sorter;
        },
      )

ReadyAll-Always :
    (place : Ptr → List Ptr → List Ptr) (xs ys : List Ptr) → ReadyAll Always place xs ys
ReadyAll-Always place xs [] = tt
ReadyAll-Always place xs (y ∷ ys) = (tt, ReadyAll-Always place (place y xs) ys)

place_all-behind : (xs ys : List Ptr) → place_all behind xs ys ≡ xs ++ ys
place_all-behind xs [] = sym (append-nil xs)
place_all-behind xs (y ∷ ys) = place_all-behind (xs ++ y ∷ []) ys ∙ append_assoc xs (y ∷ []) ys

All-filter {κ} :
    (P : Ptr → Type κ) (p : Ptr → Bool) (xs : List Ptr) → All P xs → All P (filter p xs)
All-filter P p [] h = tt
All-filter P p (x ∷ xs) h = elim (Bool-cases (p x)) [
  | inl e ↦ rw e (h.0, All-filter P p xs h.1)
  | inr e ↦ rw e (All-filter P p xs h.1)
]

-- `vector_copy_if` of fewer than 2^31 items returns a vector of the items that pass, in their
-- order, which has neither the sorter nor the destroyer of the original.
pub copy_if-filter :
    (call : Ptr → Vector → Ptr → Option Vector) {v : Vector} {xs : List Ptr} (p : Ptr → Bool)
    → Holds v xs
    → length xs < 2 ^ 31
    → (w : Vector) × (copy_if call (some v) (some p) ≡ some (some w))
      × Holds w (filter p xs)
      × (w.sorter ≡ null)
      × (w.destroyer ≡ null)
unfolding copy_if iterator create set_filter
copy_if-filter call {v} {xs} p h small =
    let ys : List Ptr = filter p xs in
    let (w, run, k) =
      fold-place_all (no_sorter-Places call) ys [] (create 0 1)
        (create-Holds 0 1 (omega arith) (omega arith) (omega arith)) refl
        (omega (arith, length-filter-le p xs)) (omega (arith, length-filter-le p xs))
        (All-filter (λ x. x ≢ 0) p xs h.non_null) (ReadyAll-Always behind [] ys) in
    (
      w,
      rw (each-filter h (some p) (append_item call) (create 0 1), run) refl,
      subst (Holds w) (place_all-behind [] ys) k.holds,
      k.same_sorter,
      k.same_destroyer,
    )
