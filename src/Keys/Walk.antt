-- ===== src/Keys/Walk.antt =====
-- src/keybinding.c: the loops over `key_find_action` end.
use sngrep.Common.{
  ℕ, zero, suc, ◌+◌, ◌≤◌, ◌<◌, ◌≡◌, refl, sym, ◌∙◌, ap, Bool, true, false, some, List, [], ◌∷◌,
  ◌==◌, ◌&&◌, take, drop, arith, Bool-cases, inl, inr, leb, ◌||◌, subst, ==_iff,
}
use sngrep.Common.Int.{ℤ, pos, pos_part}
use sngrep.Keys.{Binding, Curses, bindings}
use sngrep.Keys.Names.{bound, find_loop, key_find_action}

-- From the row `i` on, the id of a row that has keys is not less than the place of the row.
unfoldable pub ascending : ℕ → List Binding → Bool
ascending i [] = true
ascending i (b ∷ bs) = (leb i b.id || b.bindcnt == 0) && ascending (suc i) bs

pub bindings-ascending : (k : Curses) → ascending 0 (bindings k) ≡ true
unfolding ascending bindings
bindings-ascending k = refl

drop-ascending :
    (n i : ℕ) (bs : List Binding) → ascending i bs ≡ true → ascending (n + i) (drop n bs) ≡ true
unfolding ascending
drop-ascending zero i bs h = subst (λ j. ascending j bs ≡ true) (omega arith) h
drop-ascending (suc n) i [] h = refl
drop-ascending (suc n) i (b ∷ bs) h =
    subst (λ j. ascending j (drop n bs) ≡ true) (omega arith)
      (drop-ascending n (suc i) bs (ground (arith, h)))

find_loop-low :
    (key : ℤ) (i : ℕ) (bs : List Binding) (a : ℕ)
    → 0 < i
    → ascending i bs ≡ true
    → find_loop key i bs ≡ pos a
    → i ≤ a
unfolding ascending find_loop bound
find_loop-low key i [] a h up e = cc
find_loop-low key i (b ∷ bs) a h up e =
    let here : (i == 0) ≡ false = ground (arith, h) in
    elim (Bool-cases (bound key (take b.bindcnt b.keys))) [
      | inl y ↦
          let id : pos b.id ≡ pos a = rw (here, y) at e in
          let same : b.id ≡ a = ap pos_part id in
          elim (Bool-cases (b.bindcnt == 0)) [
            | inl z ↦
                let zero_keys : b.bindcnt ≡ 0 = (==_iff b.bindcnt 0).0 z in
                let never : bound key (take b.bindcnt b.keys) ≡ false =
                  subst (λ j. bound key (take j b.keys) ≡ false) (sym zero_keys) refl in
                absurd (cc (sym y ∙ never))
            | inr z ↦ ground (arith, up, z, same)
          ]
      | inr n ↦
          let later =
            find_loop-low key (suc i) bs a (omega arith) (ground (arith, up)) (rw (here, n) at e) in
          omega (arith, later)
    ]

-- In a table whose ids do not lie below their places, an action that `key_find_action` finds after
-- another one has a greater number.
pub key_find_action-ascends :
    (bs : List Binding) (key : ℤ) (n a : ℕ)
    → ascending 0 bs ≡ true
    → key_find_action bs key (pos n) ≡ some (pos a)
    → n < a
unfolding key_find_action
key_find_action-ascends bs key n a up e =
    let found : find_loop key (suc n) (drop (suc n) bs) ≡ pos a = cc in
    find_loop-low key (suc n) (drop (suc n) bs) a (omega arith)
      (subst (λ j. ascending j (drop (suc n) bs) ≡ true) (omega arith)
        (drop-ascending (suc n) 0 bs up))
      found
