-- ===== src/Hash/View.antt =====
-- src/hash.c against its specification: for each key the list of what was inserted under it, oldest
-- first. A lookup answers the oldest, and a removal drops the oldest.
use mathlib.Core.List.{append-nil}
use sngrep.Common.{
  ℕ, zero, suc, ◌^◌, ◌<◌, ◌≡◌, refl, ◌∙◌, ap, subst, true, false, Option, none, some, List, [], ◌∷◌,
  ◌++◌, ◌==◌, if◌then◌else◌, ◌>>=◌, get_elem?, set, length, replicate, arith, Bool-cases, inl, inr,
  length-replicate, ==_iff,
}
use sngrep.Hash.{
  Key, key_eq, Entry, Table, create, htable_hash, hash_of, insert, unlink, remove, find_in, find,
}
use sngrep.Hash.Bound.{hash_of-lt}

pub key_eq_refl : (k : Key) → key_eq k k ≡ true
key_eq_refl [] = refl
key_eq_refl (a ∷ k) = ground (arith, key_eq_refl k)

pub key_eq→eq : (j k : Key) → key_eq j k ≡ true → j ≡ k
key_eq→eq [] [] e = refl
key_eq→eq [] (b ∷ k) e = cc
key_eq→eq (a ∷ j) [] e = cc
key_eq→eq (a ∷ j) (b ∷ k) e = ground (arith, key_eq→eq j k)

pub key_eq_sym : (j k : Key) → key_eq j k ≡ key_eq k j
key_eq_sym [] [] = refl
key_eq_sym [] (b ∷ k) = refl
key_eq_sym (a ∷ j) [] = refl
key_eq_sym (a ∷ j) (b ∷ k) = ground (arith, key_eq_sym j k)

-- The contents under a key, in a chain.
abbrev pub under : Key → List Entry → List ℕ
under k [] = []
under k (e ∷ chain) = if key_eq e.key k then e.content ∷ under k chain else under k chain

abbrev pub oldest : List ℕ → Option ℕ
oldest [] = none
oldest (x ∷ xs) = some x

abbrev pub tail : List ℕ → List ℕ
tail [] = []
tail (x ∷ xs) = xs

find_in-oldest : (k : Key) (chain : List Entry) → find_in k chain ≡ oldest (under k chain)
unfolding find_in
find_in-oldest k [] = refl
find_in-oldest k (e ∷ chain) = ground (arith, find_in-oldest k chain)

under-append :
    (k : Key) (chain more : List Entry) → under k (chain ++ more) ≡ under k chain ++ under k more
under-append k [] more = refl
under-append k (e ∷ chain) more = ground (arith, under-append k chain more)

under-unlink :
    (k j : Key) (chain : List Entry)
    → under j (unlink k chain) ≡ (if key_eq k j then tail (under j chain) else under j chain)
unfolding unlink
under-unlink k j [] = ground arith
under-unlink k j (e ∷ chain) = elim (Bool-cases (key_eq e.key k)) [
  | inl t ↦ rw (t, key_eq→eq e.key k t) (ground arith)
  | inr f ↦ rw f (elim (Bool-cases (key_eq k j)) [
    | inl s ↦
        let same : k ≡ j = key_eq→eq k j s in
        let f' : key_eq e.key j ≡ false = subst (λ z. key_eq e.key z ≡ false) same f in
        rw (f', under-unlink k j chain, s) refl
    | inr s ↦ rw (under-unlink k j chain, s) refl
  ])
]

-- The chain at an index, empty out of range.
abbrev pub chain_at : List (List Entry) → ℕ → List Entry
chain_at [] i = []
chain_at (c ∷ cs) zero = c
chain_at (c ∷ cs) (suc i) = chain_at cs i

-- A table that `htable_create` made of a positive size.
pub record IsTable (t : Table) : Type 0 where
  pub positive : 0 < t.size
  pub small : t.size < 2 ^ 64
  pub wide : length t.buckets ≡ t.size

-- What the table holds under a key.
unfoldable pub view : Table → Key → List ℕ
view t k = under k (chain_at t.buckets (htable_hash t k))

get-chain_at :
    (bs : List (List Entry)) (i : ℕ) → i < length bs → get_elem? bs i ≡ some (chain_at bs i)
get-chain_at [] i h = absurd (omega arith)
get-chain_at (c ∷ cs) zero h = refl
get-chain_at (c ∷ cs) (suc i) h = get-chain_at cs i (omega arith)

chain_at-set :
    (bs : List (List Entry)) (i j : ℕ) (c : List Entry)
    → i < length bs
    → chain_at (set bs i c) j ≡ (if i == j then c else chain_at bs j)
chain_at-set [] i j c h = absurd (omega arith)
chain_at-set (b ∷ bs) zero zero c h = ground arith
chain_at-set (b ∷ bs) zero (suc j) c h = ground arith
chain_at-set (b ∷ bs) (suc i) zero c h = ground arith
chain_at-set (b ∷ bs) (suc i) (suc j) c h = ground (arith, chain_at-set bs i j c (omega arith))

length-set : (bs : List (List Entry)) (i : ℕ) (c : List Entry) → length (set bs i c) ≡ length bs
length-set [] i c = refl
length-set (b ∷ bs) zero c = refl
length-set (b ∷ bs) (suc i) c = ap suc (length-set bs i c)

chain_at-replicate : (n i : ℕ) → chain_at (replicate n []) i ≡ []
chain_at-replicate zero i = refl
chain_at-replicate (suc n) zero = refl
chain_at-replicate (suc n) (suc i) = chain_at-replicate n i

pub create-IsTable : (n : ℕ) → 0 < n → n < 2 ^ 64 → IsTable (create n)
unfolding create
create-IsTable n p q = record {
  positive = p;
  small = q;
  wide = length-replicate {A = List Entry} n [];
}

pub view-create : (n : ℕ) (k : Key) → view (create n) k ≡ []
unfolding view create htable_hash
view-create n k = rw (chain_at-replicate n (hash_of n k)) refl

module _ {t : Table} (h : IsTable t) (k : Key) where
  here : htable_hash t k < length t.buckets
  unfolding htable_hash
  here = rw h.wide (hash_of-lt t.size k h.positive h.small)

  -- `htable_find` in a table of positive size returns the oldest content of the key, or none.
  pub find-view : find t k ≡ some (oldest (view t k))
  unfolding find view
  find-view =
      rw (get-chain_at t.buckets (htable_hash t k) here, ◌>>=◌)
        (ap some (find_in-oldest k (chain_at t.buckets (htable_hash t k))))

  same_hash : (j : Key) → key_eq k j ≡ true → htable_hash t k ≡ htable_hash t j
  same_hash j e = ap (htable_hash t) (key_eq→eq k j e)

  -- A change of the chain of `k`, seen from every key.
  replaced : List Entry → Table
  replaced c = record t { buckets = set t.buckets (htable_hash t k) c }

  replaced-IsTable : (c : List Entry) → IsTable (replaced c)
  unfolding replaced
  replaced-IsTable c = record {
    positive = h.positive;
    small = h.small;
    wide = length-set t.buckets (htable_hash t k) c ∙ h.wide;
  }

  view-replaced :
      (c : List Entry) (j : Key)
      → view (replaced c) j ≡ (if htable_hash t k == htable_hash t j then under j c else view t j)
  unfolding replaced view htable_hash
  view-replaced c j =
      rw (chain_at-set t.buckets (hash_of t.size k) (hash_of t.size j) c here) (ground arith)

  old : List Entry
  old = chain_at t.buckets (htable_hash t k)

  -- A change of the chain of `k` that does `g` to the contents of `k` alone does so to the table.
  view-change :
      (c : List Entry) (g : List ℕ → List ℕ) (j : Key)
      → under j c ≡ (if key_eq k j then g (under j old) else under j old)
      → view (replaced c) j ≡ (if key_eq k j then g (view t j) else view t j)
  unfolding old view
  view-change c g j e =
      view-replaced c j ∙ (elim (Bool-cases (htable_hash t k == htable_hash t j)) [
        | inl s ↦
            let same : htable_hash t k ≡ htable_hash t j = (==_iff _ _).0 s in rw (s, e, same) refl
        | inr d ↦ let other : key_eq k j ≡ false = differs j d in rw (d, other) refl
      ])
    where
      differs : (j : Key) → (htable_hash t k == htable_hash t j) ≡ false → key_eq k j ≡ false
      differs j d = elim (Bool-cases (key_eq k j)) [
        | inl y ↦ ground (arith, same_hash j y)
        | inr n ↦ n
      ]

  -- `htable_insert` into a table of positive size returns; it adds the content behind the older
  -- contents of its key and changes the contents of no other key.
  pub insert-view :
      (x : ℕ)
      → (u : Table) × (insert t k x ≡ some u)
        × IsTable u
        × ((j : Key) → view u j ≡ (if key_eq k j then view t j ++ x ∷ [] else view t j))
  unfolding insert replaced old
  insert-view x =
      let c : List Entry = old ++ record { key = k; content = x } ∷ [] in
      (
        replaced c,
        rw (get-chain_at t.buckets (htable_hash t k) here, ◌>>=◌) refl,
        replaced-IsTable c,
        λ j.
            view-change c (λ l. l ++ x ∷ []) j
              (under-append j old (record { key = k; content = x } ∷ []) ∙ last j),
      )
    where
      last :
          (j : Key)
          → under j old ++ under j (record { key = k; content = x } ∷ [])
            ≡ (if key_eq k j then under j old ++ x ∷ [] else under j old)
      last j = elim (Bool-cases (key_eq k j)) [
        | inl y ↦ rw y refl
        | inr n ↦ rw n (append-nil (under j old))
      ]

  -- `htable_remove` in a table of positive size returns; it drops the oldest content of its key
  -- and changes the contents of no other key.
  pub remove-view :
      (u : Table) × (remove t k ≡ some u)
      × IsTable u
      × ((j : Key) → view u j ≡ (if key_eq k j then tail (view t j) else view t j))
  unfolding remove replaced old
  remove-view =
      let c : List Entry = unlink k old in
      (
        replaced c,
        rw (get-chain_at t.buckets (htable_hash t k) here, ◌>>=◌) refl,
        replaced-IsTable c,
        λ j. view-change c tail j (under-unlink k j old),
      )
