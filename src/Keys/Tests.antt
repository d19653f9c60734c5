-- ===== src/Keys/Tests.antt =====
-- src/keybinding.c: the theorems at the table of the program.
use sngrep.Common.{◌≡◌, refl, ◌<◌, some, List, [], ◌∷◌, arith}
use sngrep.Common.Int.{pos, ◌-ℤ◌}
use sngrep.Keys.{Binding, Curses, bindings, row, no_row, key_binding_data, key_unbind_action}
use sngrep.Keys.Unbind.{bound_keys, key_unbind_action-bound}
use sngrep.Keys.Names.{key_find_action}
use sngrep.Keys.Walk.{key_find_action-ascends, bindings-ascending}

abbrev curses : Curses
curses = record {
  key_backspace = pos 263;
  key_dc = pos 330;
  key_down = pos 258;
  key_end = pos 360;
  key_home = pos 262;
  key_left = pos 260;
  key_npage = pos 338;
  key_ppage = pos 339;
  key_resize = pos 410;
  key_right = pos 261;
  key_up = pos 259;
  key_f = λ n. n;
  keyname = λ k. [];
}

-- Two rows of the table behind its first.
abbrev up : Binding
up = row 1 "up" (pos 259 ∷ pos 107 ∷ []) 2

abbrev down : Binding
down = row 2 "down" (pos 258 ∷ pos 106 ∷ []) 2

abbrev rows : List Binding
rows = up ∷ down ∷ []

key_unbind_action-bound_example :
    (b : Binding) × (key_binding_data (key_unbind_action (no_row ∷ rows) (pos 2) (pos 106)) (pos 2)
      ≡ some b)
    × (bound_keys b ≡ pos 0 ∷ pos 0 ∷ pos 258 ∷ [])
unfolding key_binding_data
key_unbind_action-bound_example =
    key_unbind_action-bound (pos 2) (pos 106) no_row down rows refl (refl, omega arith)

-- The key `f` goes from the action 11 on to the filters.
key_find_action-ascends_example : 11 < 30
unfolding key_find_action bindings ◌-ℤ◌
key_find_action-ascends_example =
    key_find_action-ascends (bindings curses) (pos b'f') 11 30 (bindings-ascending curses) refl
