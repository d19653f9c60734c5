-- ===== src/Hash.antt =====
-- src/hash.c: the table of calls by Call-Id. A bucket is the chain of its entries, in order. The
-- allocator is taken to succeed, so `htable_insert` always returns 0.
pub mod Bound
pub mod View
mod Tests
use Prim.Native.Nat.{bit_and, bit_xor}
use sngrep.Common.{
  ℕ, zero, suc, ◌+◌, ◌-◌, ◌*◌, ◌%◌, ◌^◌, Bool, true, false, Option, none, some, List, [], ◌∷◌, ◌++◌,
  ◌==◌, ltb, ◌&&◌, if◌then◌else◌, ◌>>=◌, get_elem?, set, length, replicate,
}

-- The bytes of a C string before its terminator.
abbrev pub Key : Type 0
Key = List ℕ

-- `!strcmp(a, b)`
abbrev pub key_eq : Key → Key → Bool
key_eq [] [] = true
key_eq [] (b ∷ bs) = false
key_eq (a ∷ as') [] = false
key_eq (a ∷ as') (b ∷ bs) = (a == b) && key_eq as' bs

pub record Entry : Type 0 where
  pub key : Key
  pub content : ℕ

pub record Table : Type 0 where
  pub size : ℕ
  pub buckets : List (List Entry)

abbrev pub word : ℕ
word = 2 ^ 64

unfoldable pub create : ℕ → Table
create size = record { size = size; buckets = replicate size [] }

-- `*key` is a signed character that is widened to `size_t`.
abbrev pub widen : ℕ → ℕ
widen c = if ltb c 128 then c else word - 256 + c

-- `((hash << 5) + hash) ^ *key`
abbrev pub mix : ℕ → ℕ → ℕ
mix hash c = bit_xor ((hash * 32 % word + hash) % word) (widen c)

-- `while (*key++)` mixes in the bytes behind the first, and then the terminator.
unfoldable pub hash_loop : ℕ → Key → ℕ
hash_loop hash [] = hash
hash_loop hash (a ∷ []) = mix hash 0
hash_loop hash (a ∷ b ∷ key) = hash_loop (mix hash b) (b ∷ key)

-- `hash & (table->size - 1)`
unfoldable pub hash_of : ℕ → Key → ℕ
unfolding hash_loop
hash_of size key = bit_and (hash_loop 5381 key) ((size + word - 1) % word)

unfoldable pub htable_hash : Table → Key → ℕ
unfolding hash_of
htable_hash t key = hash_of t.size key

-- The entry goes to the end of its chain. A bucket out of range is a fault.
unfoldable pub insert : Table → Key → ℕ → Option Table
unfolding htable_hash
insert t key content =
    let i = htable_hash t key in
    get_elem? t.buckets i >>= λ chain.
    some (record t {
      buckets = set t.buckets i (chain ++ record { key = key; content = content } ∷ []);
    })

-- The first entry with the key is unlinked.
unfoldable pub unlink : Key → List Entry → List Entry
unlink key [] = []
unlink key (e ∷ chain) = if key_eq e.key key then chain else e ∷ unlink key chain

unfoldable pub remove : Table → Key → Option Table
unfolding htable_hash unlink
remove t key =
    let i = htable_hash t key in
    get_elem? t.buckets i >>= λ chain.
    some (record t { buckets = set t.buckets i (unlink key chain) })

-- The first entry with the key; NULL is `none`.
unfoldable pub find_in : Key → List Entry → Option ℕ
find_in key [] = none
find_in key (e ∷ chain) = if key_eq e.key key then some e.content else find_in key chain

unfoldable pub find : Table → Key → Option (Option ℕ)
unfolding htable_hash find_in
find t key = get_elem? t.buckets (htable_hash t key) >>= λ chain. some (find_in key chain)
