-- ===== src/Keys/Unbind.antt =====
-- src/keybinding.c: what binding and unbinding a key leave of a row.
use mathlib.Core.List.{append_assoc, append-nil}
use sngrep.Common.{
  ℕ, zero, suc, ◌+◌, ◌≤◌, ◌<◌, ◌≡◌, refl, sym, ◌∙◌, ap, true, some, List, [], ◌∷◌, ◌++◌, ◌==◌, not,
  take, set, length-take, length-append, ==_iff, replicate, length, filter, arith, Bool-cases, inl,
  inr,
}
use sngrep.Common.Int.{ℤ, pos, eq_ℤ}
use sngrep.Keys.{
  Binding, max_bindings, find_row, key_binding_data, set_row, set_binding, bind_key,
  key_bind_action, reset_keys, rebind, key_unbind_action,
}

-- The keys that are bound by a row.
abbrev pub bound_keys : Binding → List ℤ
bound_keys b = take b.bindcnt b.keys

-- The array of a row has its five places, and no more are counted.
abbrev pub IsRow : Binding → Type 0
IsRow b = (length b.keys ≡ max_bindings) × (b.bindcnt ≤ max_bindings)

module _ {ℓ} {A : Type ℓ} where
  take_all : (n : ℕ) (xs : List A) → length xs ≤ n → take n xs ≡ xs
  take_all zero [] h = refl
  take_all zero (x ∷ xs) h = absurd (omega arith)
  take_all (suc n) [] h = refl
  take_all (suc n) (x ∷ xs) h = ap (λ l. x ∷ l) (take_all n xs (omega arith))

  take-append_take : (n : ℕ) (a b : List A) → take n (take n a ++ b) ≡ take n (a ++ b)
  take-append_take zero a b = refl
  take-append_take (suc n) [] b = refl
  take-append_take (suc n) (x ∷ a) b = ap (λ l. x ∷ l) (take-append_take n a b)

  take_full : (n : ℕ) (a b : List A) → length a ≡ n → take n (a ++ b) ≡ a
  take_full zero [] b h = refl
  take_full zero (x ∷ a) b h = absurd (omega arith)
  take_full (suc n) [] b h = absurd (omega arith)
  take_full (suc n) (x ∷ a) b h = ap (λ l. x ∷ l) (take_full n a b (omega arith))

  take-set :
      (n : ℕ) (xs : List A) (y : A)
      → n < length xs
      → take (suc n) (set xs n y) ≡ take n xs ++ y ∷ []
  take-set zero [] y h = absurd (omega arith)
  take-set zero (x ∷ xs) y h = refl
  take-set (suc n) [] y h = absurd (omega arith)
  take-set (suc n) (x ∷ xs) y h = ap (λ l. x ∷ l) (take-set n xs y (omega arith))

  length-set : (n : ℕ) (xs : List A) (y : A) → length (set xs n y) ≡ length xs
  length-set n [] y = refl
  length-set zero (x ∷ xs) y = refl
  length-set (suc n) (x ∷ xs) y = ap suc (length-set n xs y)

  take-replicate : (n m : ℕ) (x : A) → n ≤ m → take n (replicate m x) ≡ replicate n x
  take-replicate zero m x h = refl
  take-replicate (suc n) zero x h = absurd (omega arith)
  take-replicate (suc n) (suc m) x h = ap (λ l. x ∷ l) (take-replicate n m x (omega arith))

eq_ℤ_refl : (a : ℤ) → eq_ℤ a a ≡ true
eq_ℤ_refl a = ground arith

-- A write through the pointer of an action is seen by the next search for it.
find_row-set_row :
    (f : Binding → Binding) (action : ℤ) (bs : List Binding) (b : Binding)
    → ((c : Binding) → (f c).id ≡ c.id)
    → find_row bs action ≡ some b
    → find_row (set_row f action bs) action ≡ some (f b)
unfolding find_row set_row
find_row-set_row f action [] b keeps e = cc
find_row-set_row f action (c ∷ bs) b keeps e = elim (Bool-cases (eq_ℤ (pos c.id) action)) [
  | inl y ↦
      let found : some c ≡ some b = rw y at e in
      let same : c ≡ b = cc in
      let hit : eq_ℤ (pos (f c).id) action ≡ true = ap (λ i. eq_ℤ (pos i) action) (keeps c) ∙ y in
      rw (y, hit, same) refl
  | inr n ↦ rw (n, n) (find_row-set_row f action bs b keeps (rw n at e))
]

bind_key-id : (key : ℤ) (b : Binding) → (bind_key key b).id ≡ b.id
unfolding bind_key
bind_key-id key b = ground arith

bind_key-bound :
    (key : ℤ) (b : Binding)
    → IsRow b
    → (bound_keys (bind_key key b) ≡ take max_bindings (bound_keys b ++ key ∷ []))
      × IsRow (bind_key key b)
unfolding bind_key
bind_key-bound key b h = elim (Bool-cases (b.bindcnt == max_bindings)) [
  | inl y ↦
      let short : length (bound_keys b) ≡ max_bindings =
        length-take b.bindcnt b.keys ∙ omega (arith, h.0, (==_iff b.bindcnt max_bindings).0 y) in
      (rw (y, take_full max_bindings (bound_keys b) (key ∷ []) short) refl, rw y h)
  | inr n ↦
      let low : b.bindcnt < max_bindings = ground (arith, n, h.1) in
      let next : take (b.bindcnt + 1) (set b.keys b.bindcnt key)
          ≡ take (suc b.bindcnt) (set b.keys b.bindcnt key) =
        ap (λ i. take i (set b.keys b.bindcnt key)) {y = suc b.bindcnt} (omega arith) in
      let short : length (bound_keys b ++ key ∷ []) ≤ max_bindings =
        omega (arith, length-append (bound_keys b) (key ∷ []), length-take b.bindcnt b.keys) in
      (
        rw (n, take_all max_bindings (bound_keys b ++ key ∷ []) short)
            (next ∙ take-set b.bindcnt b.keys key (omega (arith, h.0))),
        rw n (length-set b.bindcnt b.keys key ∙ h.0, omega arith),
      )
]

-- For an action that has a row, `key_bind_action` adds the key behind the keys of that row, unless
-- all five places are taken.
pub key_bind_action-bound :
    (action key : ℤ) (first b : Binding) (bs : List Binding)
    → key_binding_data (first ∷ bs) action ≡ some b
    → IsRow b
    → (b' : Binding) × (key_binding_data (key_bind_action (first ∷ bs) action key) action ≡ some b')
      × (bound_keys b' ≡ take max_bindings (bound_keys b ++ key ∷ []))
      × IsRow b'
unfolding key_binding_data key_bind_action set_binding
key_bind_action-bound action key first b bs e h =
    let (bound, row) = bind_key-bound key b h in
    (bind_key key b, find_row-set_row (bind_key key) action bs b (bind_key-id key) e, bound, row)

-- The keys of a list that are not `key`.
abbrev pub others : ℤ → List ℤ → List ℤ
others key = filter (λ x. not (eq_ℤ x key))

rebind-bound :
    (action key : ℤ) (xs : List ℤ) (first b : Binding) (bs : List Binding)
    → key_binding_data (first ∷ bs) action ≡ some b
    → IsRow b
    → (b' : Binding) × (key_binding_data (rebind action key xs (first ∷ bs)) action ≡ some b')
      × (bound_keys b' ≡ take max_bindings (bound_keys b ++ others key xs))
      × IsRow b'
unfolding rebind find_row key_binding_data
rebind-bound action key [] first b bs e h =
    let short : length (bound_keys b ++ []) ≤ max_bindings =
      omega (arith, length-append (bound_keys b) [], length-take b.bindcnt b.keys, h.0, h.1) in
    (b, e, sym (take_all max_bindings (bound_keys b ++ []) short ∙ append-nil (bound_keys b)), h)
rebind-bound action key (x ∷ xs) first b bs e h = elim (Bool-cases (eq_ℤ x key)) [
  | inl y ↦ rw y (rebind-bound action key xs first b bs e h)
  | inr n ↦
      let (bound, row) = bind_key-bound x b h in
      let found = find_row-set_row (bind_key x) action bs b (bind_key-id x) e in
      let (b', last, all, fits) =
        rebind-bound action key xs first (bind_key x b) (set_row (bind_key x) action bs) found
          row in
      let joined : take max_bindings (bound_keys (bind_key x b) ++ others key xs)
          ≡ take max_bindings (bound_keys b ++ x ∷ others key xs) =
        ap (λ l. take max_bindings (l ++ others key xs)) bound
        ∙ take-append_take max_bindings (bound_keys b ++ x ∷ []) (others key xs)
        ∙ ap (take max_bindings) (append_assoc (bound_keys b) (x ∷ []) (others key xs)) in
      (b', rw n last, rw n (all ∙ joined), fits)
]

-- For an action that has a row, `key_unbind_action` leaves in that row as many zeros as the action
-- had keys, and after them its other keys in order, as far as the five places go.
pub key_unbind_action-bound :
    (action key : ℤ) (first b : Binding) (bs : List Binding)
    → key_binding_data (first ∷ bs) action ≡ some b
    → IsRow b
    → (b' : Binding) × (key_binding_data (key_unbind_action (first ∷ bs) action key) action
        ≡ some b')
      × (bound_keys b'
          ≡ take max_bindings (replicate b.bindcnt (pos 0) ++ others key (bound_keys b)))
unfolding key_unbind_action set_binding
key_unbind_action-bound action key first b bs e h =
    let cleared : key_binding_data (first ∷ set_row reset_keys action bs) action
        ≡ some (reset_keys b) =
      find_row-set_row reset_keys action bs b (λ (c : Binding). refl) e in
    let zeros : bound_keys (reset_keys b) ≡ replicate b.bindcnt (pos 0) =
      take-replicate b.bindcnt max_bindings (pos 0) h.1 in
    let (b', found, bound, row) =
      rebind-bound action key (bound_keys b) first (reset_keys b) (set_row reset_keys action bs)
        cleared (refl, h.1) in
    (b', rw (key_unbind_action, e) found, rw (← zeros) bound)
