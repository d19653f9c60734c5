-- ===== src/Hash/Tests.antt =====
-- src/hash.c: the theorems at a table of four buckets.
use sngrep.Common.{◌≡◌, refl, some, [], ◌∷◌, ◌++◌, arith, if◌then◌else◌}
use sngrep.Hash.{Key, Table, key_eq, insert, remove, find, hash_of, htable_hash}
use sngrep.Hash.View.{IsTable, view, tail, find-view, insert-view, remove-view}

abbrev key_a : Key
key_a = b'a' ∷ []

abbrev key_b : Key
key_b = b'b' ∷ []

-- The table with 7 and then 8 under the same key.
abbrev filled : Table
filled = record {
  size = 4;
  buckets =
      []
      ∷ (record { key = key_a; content = 7 } ∷ record { key = key_a; content = 8 } ∷ [])
      ∷ []
      ∷ []
      ∷ [];
}

filled-IsTable : IsTable filled
filled-IsTable = record { positive = omega arith; small = omega arith; wide = refl }

insert-view_example :
    (u : Table) × (insert filled key_b 7 ≡ some u)
    × IsTable u
    × ((j : Key) → view u j ≡ (if key_eq key_b j then view filled j ++ 7 ∷ [] else view filled j))
insert-view_example = insert-view filled-IsTable key_b 7

find-view_example : find filled key_a ≡ some (some 7)
unfolding view htable_hash hash_of
find-view_example = find-view filled-IsTable key_a

remove-view_example :
    (u : Table) × (remove filled key_a ≡ some u)
    × IsTable u
    × ((j : Key) → view u j ≡ (if key_eq key_a j then tail (view filled j) else view filled j))
remove-view_example = remove-view filled-IsTable key_a
