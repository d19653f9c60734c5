-- ===== src/Vector/Sorting.antt =====
-- A sorter that runs the shared loop keeps its vector in order.
use sngrep.Common.{
  ◌≡◌, ◌≢◌, sym, ◌∙◌, ap, Bool, false, Option, some, List, [], ◌∷◌, ◌++◌, arith, length, All,
  Bool-cases, inl, inr, if◌then◌else◌, ◌==◌,
}
use sngrep.Vector.{Ptr, null, Vector, call_sorter}
use sngrep.Vector.Holds.{Holds}
use sngrep.Vector.Append.{Places}
use sngrep.Vector.Build.{ReadyAll}
use sngrep.Vector.Settle.{settle, settle-place, place, length-place, any_stays}

-- `x` is not among the items.
abbrev pub Fresh : Ptr → List Ptr → Type 0
Fresh x xs = All (λ y. y ≢ x) xs

-- No item stands twice.
abbrev pub Distinct : List Ptr → Type 0
Distinct [] = Unit
Distinct (x ∷ xs) = Fresh x xs × Distinct xs

module _ {call : Ptr → Vector → Ptr → Option Vector} {f : Ptr} (stays : Ptr → Ptr → Bool)
    (set_up : f ≢ null)
    (runs : (v : Vector) (xs : List Ptr) (x : Ptr)
      → Holds v (xs ++ x ∷ [])
      → call f v x ≡ settle stays v x (length xs)) where
  pub settle-Places : Places call f Fresh (place stays)
  unfolding call_sorter
  settle-Places = record {
    law = λ v xs x e h fresh.
        let (w, run, k) = settle-place stays xs x h fresh in
        let not_null : (f == null) ≡ false = ground (arith, set_up) in
        (
          w,
          ap (λ g. if g == null then some v else call g v x) e ∙ rw (not_null, runs v xs x h) run,
          k,
        );
    length-place = λ x xs. length-place stays x xs;
  }

module _ (stays : Ptr → Ptr → Bool) where
  -- A predicate that holds of all items holds of them wherever they are placed.
  pub All-place {κ} :
      (P : Ptr → Type κ) (x : Ptr) (xs : List Ptr) → P x → All P xs → All P (place stays x xs)
  All-place P x [] p h = (p, tt)
  All-place P x (y ∷ ys) p h = elim (Bool-cases (any_stays stays x (y ∷ ys))) [
    | inl e ↦ rw e (h.0, All-place P x ys p h.1)
    | inr e ↦ rw e (p, h)
  ]

  FreshAll : List Ptr → List Ptr → Type 0
  FreshAll xs ys = All (λ y. Fresh y xs) ys

  FreshAll-place :
      (x : Ptr) (xs ys : List Ptr) → Fresh x ys → FreshAll xs ys → FreshAll (place stays x xs) ys
  unfolding FreshAll
  FreshAll-place x xs [] d h = tt
  FreshAll-place x xs (y ∷ ys) d h =
      (All-place (λ z. z ≢ y) x xs (λ e. d.0 (sym e)) h.0, FreshAll-place x xs ys d.1 h.1)

  ready : (ys xs : List Ptr) → Distinct ys → FreshAll xs ys → ReadyAll Fresh (place stays) xs ys
  unfolding FreshAll
  ready [] xs d h = tt
  ready (y ∷ ys) xs d h = (h.0, ready ys (place stays y xs) d.1 (FreshAll-place y xs ys d.0 h.1))

  FreshAll-nil : (ys : List Ptr) → FreshAll [] ys
  unfolding FreshAll
  FreshAll-nil [] = tt
  FreshAll-nil (y ∷ ys) = (tt, FreshAll-nil ys)

  -- Items that differ can be placed one by one, from an empty vector on.
  pub Distinct-ReadyAll : (ys : List Ptr) → Distinct ys → ReadyAll Fresh (place stays) [] ys
  Distinct-ReadyAll ys d = ready ys [] d (FreshAll-nil ys)
