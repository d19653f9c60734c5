-- ===== src/Vector/Tests.antt =====
-- src/vector.c: the theorems at a vector of two items.
use sngrep.Common.{◌≡◌, refl, Option, none, some, List, [], ◌∷◌, arith, ltb, ◌+◌}
use sngrep.Common.Int.{pos}
use sngrep.Vector.{Ptr, null, Vector, append, insert, remove, destroy, destroy_items}
use sngrep.Vector.Iter.{each}
use sngrep.Vector.Copy.{copy_if}
use sngrep.Vector.Holds.{Holds, allocated}
use sngrep.Vector.Append.{Becomes, Keeps, append-place, no_sorter-Places}
use sngrep.Vector.Insert.{insert-Keeps}
use sngrep.Vector.Remove.{remove-erase}
use sngrep.Vector.Clear.{destroy-handed}
use sngrep.Vector.Walk.{each-filter, iter_at}
use sngrep.Vector.Build.{copy_if-filter}

-- The items 7 and 9, in a block of four, with the destroyer at 1.
abbrev two : Vector
two = record {
  count = 2;
  limit = 4;
  step = 4;
  list = some (some 7 ∷ some 9 ∷ none ∷ none ∷ []);
  destroyer = 1;
  sorter = null;
}

abbrev two_items : List Ptr
two_items = 7 ∷ 9 ∷ []

two-Holds : Holds two two_items
two-Holds = record {
  storage = allocated (none ∷ none ∷ []) refl refl;
  counted = refl;
  non_null = (omega arith, (omega arith, tt));
  step_pos = omega arith;
  step_small = omega arith;
  small = omega arith;
  within = omega arith;
  few = omega arith;
}

-- No sorter is ever called.
abbrev no_call : Ptr → Vector → Ptr → Option Vector
no_call f v x = none

append-place_example :
    (w : Vector) × (append no_call two 5 ≡ some (w, pos 2)) × Becomes two w (7 ∷ 9 ∷ 5 ∷ [])
append-place_example =
    append-place (no_sorter-Places no_call) two-Holds refl (omega arith) (omega arith) 5
      (omega arith) tt

insert-Keeps_example :
    (w : Vector) × (insert two 9 (pos 0) ≡ some (w, pos 2)) × Keeps two w (9 ∷ 7 ∷ [])
insert-Keeps_example = insert-Keeps [] (7 ∷ []) 9 two-Holds (omega arith, tt)

remove-erase_example : (w : Vector) × (remove two 7 ≡ some (w, 7 ∷ [])) × Keeps two w (9 ∷ [])
remove-erase_example = remove-erase 7 two-Holds

destroy-handed_example :
    (destroy (some two) ≡ some (7 ∷ 9 ∷ [])) × (destroy_items (some two) ≡ some two_items)
destroy-handed_example = destroy-handed two-Holds

-- A sum of the items above 8.
each-filter_example : each (λ s x. some (s + x)) (iter_at two (some (ltb 8)) 0) 1 ≡ some 10
each-filter_example = each-filter two-Holds (some (ltb 8)) (λ s x. some (s + x)) 1

copy_if-filter_example :
    (w : Vector) × (copy_if no_call (some two) (some (ltb 8)) ≡ some (some w))
    × Holds w (9 ∷ [])
    × (w.sorter ≡ null)
    × (w.destroyer ≡ null)
copy_if-filter_example = copy_if-filter no_call (ltb 8) two-Holds (omega arith)
