-- ===== src/Vector.antt =====
-- src/vector.c: the growing array of pointers. A `vector_t` is a record whose `list` is the
-- allocated block, slot by slot. An operation returns the new record; `none` is a fault, a read
-- or a write outside the block or a read of memory that was never written.
pub mod Iter
pub mod Copy
pub mod Holds
pub mod Grow
pub mod Append
pub mod Insert
pub mod Remove
pub mod Clear
pub mod Settle
pub mod Order
pub mod Sorting
pub mod Once
mod Tests
pub mod Walk
pub mod Back
pub mod Build
use sngrep.Common.{
  ℕ, zero, suc, ◌+◌, ◌-◌, ◌/◌, ◌%◌, ◌^◌, Bool, true, false, Option, none, some, List, [], ◌∷◌, ◌++◌,
  ◌==◌, ltb, leb, ◌&&◌, ◌||◌, if◌then◌else◌, ◌>>=◌, length, get_elem?, set, take, drop, replicate,
}
use sngrep.Common.Int.{ℤ, pos, negsuc, ltb_ℤ, to_int, next_int, ◌-ℤ◌}

-- An address, of an item or of a function.
abbrev pub Ptr : Type 0
Ptr = ℕ

abbrev pub null : Ptr
null = 0

-- One place of a block; `none` has no determinate value.
abbrev pub Slot : Type 0
Slot = Option Ptr

pub record Vector : Type 0 where
  pub count : ℕ
  pub limit : ℕ
  pub step : ℕ
  pub list : Option (List Slot)
  pub destroyer : Ptr
  pub sorter : Ptr

abbrev pub u32 : ℕ
u32 = 2 ^ 32

-- The arguments are converted to `uint32_t` and `uint8_t`.
unfoldable pub create : ℕ → ℕ → Vector
create limit step = record {
  count = 0;
  limit = limit % u32;
  step = step % 256;
  list = none;
  destroyer = null;
  sorter = null;
}

unfoldable pub set_destroyer : Vector → Ptr → Vector
set_destroyer v f = record v { destroyer = f }

unfoldable pub set_sorter : Vector → Ptr → Vector
set_sorter v f = record v { sorter = f }

-- `vector->list[i]`
abbrev pub load : Option (List Slot) → ℕ → Option Ptr
load none i = none
load (some b) i = elim (get_elem? b i) [ none ↦ none | some s ↦ s ]

-- `vector->list[i] = item`
abbrev pub store : Option (List Slot) → ℕ → Ptr → Option (List Slot)
store none i item = none
store (some b) i item = if ltb i (length b) then some (set b i (some item)) else none

-- `memmove(list + dst, list + src, sizeof(void *) * n)`
unfoldable pub memmove : Option (List Slot) → ℕ → ℕ → ℕ → Option (List Slot)
memmove none dst src n = none
memmove (some b) dst src n =
    if leb (src + n) (length b) && leb (dst + n) (length b)
    then some (take dst b ++ (take n (drop src b) ++ drop (dst + n) b))
    else none

-- `realloc`: what is new has no value yet.
unfoldable pub realloc : List Slot → ℕ → List Slot
realloc b n = take n b ++ replicate (n - length b) none

-- `memset(list + at, 0, bytes)`: whole slots become NULL, a slot cleared in part has no value.
unfoldable pub wipe : List Slot → ℕ → ℕ → List Slot
wipe b from bytes =
    take from b
    ++ (replicate (bytes / 8) (some null)
        ++ (replicate ((bytes + 7) / 8 - bytes / 8) none ++ drop (from + (bytes + 7) / 8) b))

-- The second allocation of `vector_append`. `memset` starts before the block if `limit` wrapped.
unfoldable pub grow_block : Vector → List Slot → Option Vector
unfolding realloc wipe
grow_block v b =
    let n = (v.limit + v.step) % u32 in
    if v.count == v.limit
    then (if ltb n v.step
        then none
        else some (record v { limit = n; list = some (wipe (realloc b n) (n - v.step) v.step) }))
    else some (record v { list = some b })

-- The first allocation is cleared.
unfoldable pub grow : Vector → Option Vector
unfolding grow_block
grow v = grow_block v (elim v.list [ none ↦ replicate v.limit (some null) | some b ↦ b ])

-- `vector_insert`: the vector and the count it returns, as an `int`.
-- `count - 2` wraps.
unfoldable pub insert : Vector → Ptr → ℤ → Option (Vector × ℤ)
unfolding memmove
insert v item (negsuc n) = some (v, to_int v.count)
insert v item (pos p) =
    if item == null || ltb ((v.count + u32 - 2) % u32) p
    then some (v, to_int v.count)
    else load v.list p >>= λ old.
        if old == item
        then some (v, to_int v.count)
        else (if old == null
            then some v.list
            else memmove v.list (p + 1) p ((v.count + u32 - p - 1) % u32) >>= λ b. some (some b))
          >>= λ b. store b p item >>= λ b'. some (record v { list = some b' }, to_int v.count)

-- `vector_item`; index and count are compared as unsigned numbers, so a negative one is too large.
unfoldable pub item : Vector → ℤ → Option Ptr
item v (negsuc n) = some null
item v (pos i) = if leb v.count i then some null else load v.list i

unfoldable pub set_item : Vector → ℤ → Ptr → Option Vector
set_item v (negsuc n) x = some v
set_item v (pos i) x =
    if leb v.count i then some v else store v.list i x >>= λ b. some (record v { list = some b })

unfoldable pub first : Vector → Option Ptr
unfolding item
first v = item v (pos 0)

-- `vector_count(vector) - 1` of an empty vector is -1; that of the least `int` overflows.
unfoldable pub last : Vector → Option Ptr
unfolding item
last v = if v.count == 2 ^ 31 then none else item v (to_int v.count -ℤ pos 1)

-- The loop of `vector_index`, with the rounds left. The index is an `int`.
unfoldable pub index_loop : Option (List Slot) → Ptr → ℕ → ℕ → Option ℤ
index_loop b x zero i = some (negsuc 0)
index_loop b x (suc k) i = load b i >>= λ y. elim (y == x) [
  | true ↦ some (pos i)
  | false ↦ next_int i >>= λ j. index_loop b x k j
]

unfoldable pub index : Vector → Ptr → Option ℤ
unfolding index_loop
index v x = index_loop v.list x v.count 0

-- What `vector_remove` does once the position is known.
unfoldable pub remove_at : Vector → Ptr → ℤ → Option (Vector × List Ptr)
unfolding memmove
remove_at v x (negsuc n) = some (v, [])
remove_at v x (pos i) =
    let n = (v.count + u32 - 1) % u32 in
    memmove v.list i (i + 1) (n - i) >>= λ b.
    if ltb n (length b)
    then some (
      record v { count = n; list = some (set b n (some null)) },
      if v.destroyer == null then [] else x ∷ [],
    )
    else none

-- `vector_remove`: the vector and the items handed to its destroyer.
unfoldable pub remove : Vector → Ptr → Option (Vector × List Ptr)
unfolding index remove_at
remove v x = index v x >>= remove_at v x

-- `vector_clear` on fuel: the vector and the items handed to its destroyer.
unfoldable pub clear_loop : ℕ → Vector → Option (Vector × List Ptr)
unfolding first remove
clear_loop zero v = none
clear_loop (suc k) v = first v >>= λ x. elim (x == null) [
  | true ↦ some (v, [])
  | false ↦ remove v x >>= λ (v', gone). clear_loop k v' >>= λ (v'', rest). some (v'', gone ++ rest)
]

unfoldable pub clear : Vector → Option (Vector × List Ptr)
unfolding clear_loop
clear v = clear_loop (suc v.count) v

-- `vector_destroy`: what its destroyer was handed before the memory was given back.
unfoldable pub destroy : Option Vector → Option (List Ptr)
unfolding clear
destroy none = some []
destroy (some v) = clear v >>= λ (_, gone). some gone

-- `vector_destroy_items`: the items that are freed.
unfoldable pub destroy_items_loop : Option (List Slot) → ℕ → ℕ → Option (List Ptr)
destroy_items_loop b zero i = some []
destroy_items_loop b (suc k) i =
    load b i >>= λ x. next_int i >>= λ j. destroy_items_loop b k j >>= λ rest. some (x ∷ rest)

unfoldable pub destroy_items : Option Vector → Option (List Ptr)
unfolding destroy_items_loop
destroy_items none = some []
destroy_items (some v) = destroy_items_loop v.list v.count 0

-- `vector_append` up to the call of the sorter.
unfoldable pub append_last : Vector → Ptr → Option Vector
unfolding grow
append_last v x = grow v >>= λ w.
    store w.list w.count x >>= λ b. some (record w { count = (w.count + 1) % u32; list = some b })

-- `vector->sorter(vector, item)` is a call through a pointer: `call` says what a pointer runs.
module _ (call : Ptr → Vector → Ptr → Option Vector) where
  unfoldable pub call_sorter : Vector → Ptr → Option Vector
  call_sorter w x = if w.sorter == null then some w else call w.sorter w x

  -- `vector_append`: the vector and the returned `count - 1`, converted to `int`.
  unfoldable pub append : Vector → Ptr → Option (Vector × ℤ)
  unfolding append_last call_sorter
  append v x =
      if x == null
      then some (v, to_int v.count)
      else append_last v x >>= λ w.
          call_sorter w x >>= λ w'. some (w', to_int ((w'.count + u32 - 1) % u32))
