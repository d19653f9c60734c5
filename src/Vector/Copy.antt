-- ===== src/Vector/Copy.antt =====
-- src/vector.c: the functions that append the items of one vector to another.
use sngrep.Common.{ℕ, Bool, Option, none, some, ◌>>=◌}
use sngrep.Vector.{Ptr, Vector, create, set_destroyer, set_sorter, append}
use sngrep.Vector.Iter.{iterator, set_filter, for_each, each}

-- As for `append`, `call` says what a function pointer runs.
module _ (call : Ptr → Vector → Ptr → Option Vector) where
  -- The body of the loops: the returned index is dropped.
  unfoldable pub append_item : Vector → Ptr → Option Vector
  unfolding append
  append_item v x = append call v x >>= λ (v', _). some v'

  -- `vector_append_vector`: the status and the grown vector.
  unfoldable pub append_vector : Option Vector → Option Vector → Option (ℕ × Option Vector)
  unfolding append_item for_each iterator
  append_vector none src = some (1, none)
  append_vector (some v) none = some (1, some v)
  append_vector (some v) (some w) =
      each append_item (iterator (some w)) v >>= λ v'. some (0, some v')

  unfoldable pub clone : Option Vector → Option (Option Vector)
  unfolding append_item for_each iterator create set_destroyer set_sorter
  clone none = some none
  clone (some v) =
      let fresh = set_sorter (set_destroyer (create v.limit v.step) v.destroyer) v.sorter in
      each append_item (iterator (some v)) fresh >>= λ v'. some (some v')

  -- `vector_copy_if`: sorter and destroyer of the copy stay NULL.
  unfoldable pub copy_if : Option Vector → Option (Ptr → Bool) → Option (Option Vector)
  unfolding append_item for_each iterator create set_filter
  copy_if none filter = some none
  copy_if (some v) filter =
      each append_item (set_filter (iterator (some v)) filter) (create 0 1) >>= λ v'. some (some v')
