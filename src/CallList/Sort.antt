-- ===== src/CallList/Sort.antt =====
-- src/sip.c, `sip_list_sorter` and `sip_sort_list`: the list of calls is kept in its order.
use sngrep.Common.{
  suc, ◌-◌, ◌≡◌, refl, sym, ap, Bool, true, false, some, List, [], ◌∷◌, ◌++◌, ◌==◌, arith, length,
  length-append, ◌>>=◌,
}
use sngrep.Common.Int.{ℤ}
use sngrep.Vector.{Ptr, Vector}
use sngrep.Vector.Holds.{Holds}
use sngrep.Vector.Append.{Places}
use sngrep.Vector.Insert.{insert_last}
use sngrep.Vector.Settle.{place, settle}
use sngrep.Vector.Sorting.{Fresh, settle-Places}
use sngrep.Call.Compare.{Column, call_attr_compare}
use sngrep.Call.Preorder.{positive, negative}
use sngrep.CallList.{Sip, Env, list_sorter, column, sorts_behind, sip_list_sorter, run_sorter}

-- The sign of a comparison that puts the first call behind the second.
abbrev pub behind_sign : Bool → ℤ → Bool
behind_sign true z = positive z
behind_sign false z = negative z

first_alone :
    (stays : Ptr → Ptr → Bool) (v : Vector) (x : Ptr)
    → Holds v (x ∷ [])
    → settle stays v x 0 ≡ some v
unfolding settle
first_alone stays v x h = rw (insert_last v [] x h, ◌>>=◌) refl

module _ (env : Env) (s : Sip) where
  col : Column
  col = column env s

  behind : Ptr → Ptr → Bool
  behind = sorts_behind env s

  -- The first call does not sort behind the second, by the attribute and the direction chosen.
  abbrev pub InOrder : Ptr → Ptr → Type 0
  InOrder x y = behind_sign s.sort_asc (call_attr_compare (column env s) x y) ≡ false

  runs :
      (v : Vector) (xs : List Ptr) (x : Ptr)
      → Holds v (xs ++ x ∷ [])
      → run_sorter env s list_sorter v x ≡ settle behind v x (length xs)
  unfolding run_sorter sip_list_sorter behind
  runs v [] x h =
      let one : (v.count == 1) ≡ true = ground (arith, h.counted) in
      rw one (sym (first_alone behind v x h))
  runs v (y ∷ xs) x h =
      let count : v.count ≡ suc (suc (length xs)) =
        omega (arith, h.counted, length-append xs (x ∷ [])) in
      let test : (v.count == 1) ≡ false = ground (arith, count) in
      let rounds : v.count - 1 ≡ suc (length xs) = omega (arith, count) in
      rw test (ap (settle (sorts_behind env s) v x) rounds)

  -- The sorter of the list places a call among the others.
  pub sorter-Places : Places (run_sorter env s) list_sorter Fresh (place (sorts_behind env s))
  unfolding behind
  sorter-Places = settle-Places (sorts_behind env s) (λ e. omega arith) runs
