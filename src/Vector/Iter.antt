-- ===== src/Vector/Iter.antt =====
-- src/vector.c: iterators. The loops run on fuel, `vector_count + 1` rounds; `none` is a fault or
-- fuel that ran out.
use sngrep.Common.{ℕ, zero, suc, Bool, true, false, Option, none, some, ◌==◌, if◌then◌else◌, ◌>>=◌}
use sngrep.Common.Int.{ℤ, pos, negsuc, ◌+ℤ◌, ◌-ℤ◌, eq_ℤ, ltb_ℤ, to_int, next_int}
use sngrep.Vector.{Ptr, null, Vector, item}

-- `vector_iter_t`. No vector and no filter are NULL pointers. A filter is a function of the item.
pub record Iter : Type 0 where
  pub current : ℤ
  pub vector : Option Vector
  pub filter : Option (Ptr → Bool)

unfoldable pub iterator : Option Vector → Iter
iterator v = record { current = negsuc 0; vector = v; filter = none }

unfoldable pub set_filter : Iter → Option (Ptr → Bool) → Iter
set_filter it f = record it { filter = f }

unfoldable pub set_current : Iter → ℤ → Iter
set_current it c = record it { current = c }

-- `vector_count`, converted to `int`
unfoldable pub count_of : Option Vector → ℤ
count_of none = pos 0
count_of (some v) = to_int v.count

-- As many rounds as any loop over the vector needs.
abbrev pub rounds : Option Vector → ℕ
rounds none = 1
rounds (some v) = suc v.count

-- `vector_item`, with its test for NULL
unfoldable pub item_of : Option Vector → ℤ → Option Ptr
item_of none i = some null
item_of (some v) i = item v i

unfoldable pub set_last : Iter → Iter
unfolding count_of
set_last it = record it { current = count_of it.vector }

unfoldable pub reset : Iter → Iter
reset it = record it { current = negsuc 0 }

-- An item passes if there is no filter.
abbrev pub passes : Option (Ptr → Bool) → Ptr → Bool
passes none x = true
passes (some f) x = f x

-- `while ((item = vector_item(it->vector, ++it->current)))`
unfoldable pub next_loop : ℕ → Iter → Option (Ptr × Iter)
unfolding item_of
next_loop zero it = none
next_loop (suc k) it =
    let it' = record it { current = it.current +ℤ pos 1 } in
    item_of it.vector it'.current >>= λ x. elim (x == null) [
      | true ↦ some (null, it')
      | false ↦ elim (passes it.filter x) [ true ↦ some (x, it') | false ↦ next_loop k it' ]
    ]

unfoldable pub next : Iter → Option (Ptr × Iter)
unfolding next_loop count_of
next it =
    if ltb_ℤ it.current (count_of it.vector)
    then next_loop (rounds it.vector) it
    else some (null, it)

-- `while ((item = vector_item(it->vector, --it->current)))`
unfoldable pub prev_loop : ℕ → Iter → Option (Ptr × Iter)
unfolding item_of
prev_loop zero it = none
prev_loop (suc k) it =
    let it' = record it { current = it.current -ℤ pos 1 } in
    item_of it.vector it'.current >>= λ x. elim (x == null) [
      | true ↦ some (null, it')
      | false ↦ elim (passes it.filter x) [ true ↦ some (x, it') | false ↦ prev_loop k it' ]
    ]

unfoldable pub prev : Iter → Option (Ptr × Iter)
unfolding prev_loop
prev it = if eq_ℤ it.current (negsuc 0) then some (null, it) else prev_loop (rounds it.vector) it

-- `while ((item = vector_iterator_prev(&it)))`, to the first item that a test accepts.
unfoldable pub last_such : ℕ → (Ptr → Bool) → Iter → Option Ptr
unfolding prev
last_such zero test it = none
last_such (suc k) test it = prev it >>= λ (x, it'). elim (x == null) [
  | true ↦ some null
  | false ↦ elim (test x) [ true ↦ some x | false ↦ last_such k test it' ]
]

-- `while ((item = vector_iterator_next(&it))) s = body(s, item)`
unfoldable pub for_each {ℓ} : {S : Type ℓ} → ℕ → (S → Ptr → Option S) → Iter → S → Option (S × Iter)
unfolding next
for_each zero body it s = none
for_each (suc k) body it s = next it >>= λ (x, it'). elim (x == null) [
  | true ↦ some (s, it')
  | false ↦ body s x >>= for_each k body it'
]

-- A loop over a whole vector, with rounds enough for each item and the final NULL.
abbrev pub each {ℓ} : {S : Type ℓ} → (S → Ptr → Option S) → Iter → S → Option S
each body it s = for_each (rounds it.vector) body it s >>= λ (s', _). some s'

-- `vector_iterator_count`, by whether there is a filter.
unfoldable pub count_with : Option (Ptr → Bool) → Iter → Option (ℤ × Iter)
unfolding reset count_of for_each set_current
count_with none it = some (count_of it.vector, set_current (reset it) it.current)
count_with (some f) it =
    for_each (rounds it.vector) (λ n _. next_int n) (reset it) 0 >>= λ (n, it').
    some (pos n, set_current it' it.current)

-- The count, and the iterator put back to its place.
unfoldable pub iterator_count : Iter → Option (ℤ × Iter)
unfolding count_with
iterator_count it = count_with it.filter it
