-- ===== src/Vector/Clear.antt =====
-- src/vector.c, `vector_clear` and `vector_destroy`.
use mathlib.Core.List.{append_assoc}
use sngrep.Common.{
  length-append, ℕ, zero, suc, ◌+◌, ◌<◌, ◌≡◌, refl, sym, ◌∙◌, ap, some, List, [], ◌∷◌, ◌++◌, false,
  arith, length, ◌==◌, ==_refl, if◌then◌else◌, ◌>>=◌, Bool-cases, inl, inr,
}
use sngrep.Common.Int.{next_int-small}
use sngrep.Vector.{
  Ptr, null, Vector, remove, clear_loop, clear, destroy, destroy_items, destroy_items_loop,
}
use sngrep.Vector.Holds.{Holds, first-at, load-mid}
use sngrep.Vector.Append.{Keeps}
use sngrep.Vector.Remove.{remove-erase, handed}

-- All items, if there is a destroyer to hand them to.
abbrev pub handed_all : Vector → List Ptr → List Ptr
handed_all v xs = if v.destroyer == null then [] else xs

handed_all-cons :
    (v : Vector) (x : Ptr) (xs : List Ptr) → handed v x ++ handed_all v xs ≡ handed_all v (x ∷ xs)
handed_all-cons v x xs = elim (Bool-cases (v.destroyer == null)) [
  | inl e ↦ rw e refl
  | inr e ↦ rw e refl
]

clear_loop-Keeps :
    (k : ℕ) (v : Vector) (xs : List Ptr)
    → Holds v xs
    → length xs < k
    → (w : Vector) × (clear_loop k v ≡ some (w, handed_all v xs)) × Keeps v w []
unfolding clear_loop
clear_loop-Keeps zero v xs h l = absurd (omega arith)
clear_loop-Keeps (suc k) v [] h l = (
  v,
  rw (first-at h, ◌>>=◌)
      (elim (Bool-cases (v.destroyer == null)) [ inl e ↦ rw e refl | inr e ↦ rw e refl ]),
  record {
    holds = h;
    same_limit = refl;
    same_step = refl;
    same_destroyer = refl;
    same_sorter = refl;
  },
)
clear_loop-Keeps (suc k) v (x ∷ xs) h l =
    let ne : (x == null) ≡ false = ground (arith, h.non_null.0) in
    let (u, run, a) = remove-erase x h in
    let u-Holds : Holds u xs = rw ==_refl at a.holds in
    let run' : remove v x ≡ some (u, handed v x) = rw ==_refl at run in
    let (w, rest, b) = clear_loop-Keeps k u xs u-Holds (omega arith) in
    (
      w,
      rw (first-at h, ◌>>=◌, ne, run', rest, a.same_destroyer)
          (ap (λ g. some (w, g)) (handed_all-cons v x xs)),
      record {
        holds = b.holds;
        same_limit = b.same_limit ∙ a.same_limit;
        same_step = b.same_step ∙ a.same_step;
        same_destroyer = b.same_destroyer ∙ a.same_destroyer;
        same_sorter = b.same_sorter ∙ a.same_sorter;
      },
    )

-- `vector_clear` ends, empties the vector, and hands each item once, in order, to the destroyer.
pub clear-Keeps :
    {v : Vector} {xs : List Ptr}
    → Holds v xs
    → (w : Vector) × (clear v ≡ some (w, handed_all v xs)) × Keeps v w []
unfolding clear
clear-Keeps {v} {xs} h = clear_loop-Keeps (suc v.count) v xs h (omega (arith, h.counted))

destroy_items_loop-items :
    {v : Vector} {xs : List Ptr} (h : Holds v xs) (pre ys : List Ptr) (i : ℕ)
    → pre ++ ys ≡ xs
    → i ≡ length pre
    → destroy_items_loop v.list (length ys) i ≡ some ys
unfolding destroy_items_loop
destroy_items_loop-items h pre [] i e l = refl
destroy_items_loop-items h pre (y ∷ ys) i e l = rw (
  load-mid h pre ys y i e l,
  ◌>>=◌,
  next_int-small i
      (omega (arith, sym (length-append pre (y ∷ ys)) ∙ ap length e, h.counted, h.few)),
  destroy_items_loop-items h (pre ++ y ∷ []) ys (i + 1) (append_assoc pre (y ∷ []) ys ∙ e)
      (omega (arith, length-append pre (y ∷ []))),
)

-- For a vector of fewer than 2^31 items, `vector_destroy` ends and hands each item once, in order,
-- to the vector's destroyer, if it has one; `vector_destroy_items` frees each item once, in order,
-- whatever the destroyer.
pub destroy-handed :
    {v : Vector} {xs : List Ptr}
    → Holds v xs
    → (destroy (some v) ≡ some (handed_all v xs)) × (destroy_items (some v) ≡ some xs)
unfolding destroy destroy_items
destroy-handed {v} {xs} h =
    let (w, run, k) = clear-Keeps h in
    (rw (run, ◌>>=◌) refl, rw h.counted (destroy_items_loop-items h [] xs 0 refl refl))
