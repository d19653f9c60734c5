-- ===== src/Keys.antt =====
-- src/keybinding.c: the keys that are bound to each action.
-- The table is a list; a pointer into it is the row that it finds.
pub mod Names
mod Unbind
mod Walk
mod Tests
use Prim.Native.String.{String}
use sngrep.Common.{
  ℕ, zero, suc, ◌+◌, ◌-◌, Bool, true, false, Option, none, some, List, [], ◌∷◌, ◌++◌, ◌==◌, ◌&&◌,
  ◌||◌, not, ltb, if◌then◌else◌, ◌>>=◌, take, drop, set, replicate, length, get_elem?,
}
use sngrep.Common.Int.{ℤ, pos, negsuc, ◌+ℤ◌, ◌-ℤ◌, ltb_ℤ, eq_ℤ}
use sngrep.Codes.{codes}

-- A row; a row that the table does not list has no name.
pub record Binding : Type 0 where
  pub id : ℕ
  pub name : Option (List ℕ)
  pub keys : List ℤ
  pub bindcnt : ℕ

abbrev pub max_bindings : ℕ
max_bindings = 5

abbrev pub action_sentinel : ℕ
action_sentinel = 54

unfoldable pub key_ctrl : ℤ → ℤ
key_ctrl n = n -ℤ pos 64

abbrev pub key_esc : ℤ
key_esc = pos 27

abbrev pub key_intro : ℤ
key_intro = pos 10

abbrev pub key_tab : ℤ
key_tab = pos 9

abbrev pub key_backspace2 : ℤ
key_backspace2 = pos 8

abbrev pub key_backspace3 : ℤ
key_backspace3 = pos 127

abbrev pub key_space : ℤ
key_space = pos b' '

-- The key codes of curses, and its name of a key.
pub record Curses : Type 0 where
  pub key_backspace : ℤ
  pub key_dc : ℤ
  pub key_down : ℤ
  pub key_end : ℤ
  pub key_home : ℤ
  pub key_left : ℤ
  pub key_npage : ℤ
  pub key_ppage : ℤ
  pub key_resize : ℤ
  pub key_right : ℤ
  pub key_up : ℤ
  pub key_f : ℤ → ℤ
  pub keyname : ℤ → List ℕ

-- A row with its keys, the rest of the array filled with 0.
abbrev pub row : ℕ → String → List ℤ → ℕ → Binding
row id name keys count = record {
  id = id;
  name = some (codes name);
  keys = keys ++ replicate (max_bindings - length keys) (pos 0);
  bindcnt = count;
}

-- What is left of the array after its last row.
abbrev pub no_row : Binding
no_row = record { id = 0; name = none; keys = replicate max_bindings (pos 0); bindcnt = 0 }

-- The table as the program starts.
unfoldable pub bindings : Curses → List Binding
unfolding key_ctrl
bindings k =
    row 0 "" ([]) 0
    ∷ row 1 "up" (k.key_up ∷ pos b'k' ∷ []) 2
    ∷ row 2 "down" (k.key_down ∷ pos b'j' ∷ []) 2
    ∷ row 3 "left" (k.key_left ∷ pos b'h' ∷ []) 2
    ∷ row 4 "right" (k.key_right ∷ pos b'l' ∷ []) 2
    ∷ row 5 "delete" (k.key_dc ∷ []) 1
    ∷ row 6 "backspace" (k.key_backspace ∷ key_backspace2 ∷ key_backspace3 ∷ []) 3
    ∷ row 7 "npage" (k.key_npage ∷ key_ctrl (pos b'F') ∷ []) 2
    ∷ row 8 "ppage" (k.key_ppage ∷ key_ctrl (pos b'B') ∷ []) 2
    ∷ row 9 "hnpage" (key_ctrl (pos b'D') ∷ []) 1
    ∷ row 10 "hppage" (key_ctrl (pos b'U') ∷ []) 2
    ∷ row 11 "begin" (k.key_home ∷ key_ctrl (pos b'A') ∷ []) 2
    ∷ row 12 "end" (k.key_end ∷ key_ctrl (pos b'E') ∷ []) 2
    ∷ row 13 "pfield" (k.key_up ∷ []) 1
    ∷ row 14 "nfield" (k.key_down ∷ key_tab ∷ []) 2
    ∷ row 15 "" (k.key_resize ∷ []) 1
    ∷ row 16 "clear" (key_ctrl (pos b'U') ∷ key_ctrl (pos b'W') ∷ []) 2
    ∷ row 17 "clearcalls" (k.key_f (pos 5) ∷ key_ctrl (pos b'L') ∷ []) 2
    ∷ row 18 "clearcallssoft" (k.key_f (pos 9) ∷ []) 2
    ∷ row 19 "togglesyntax" (k.key_f (pos 8) ∷ pos b'C' ∷ []) 2
    ∷ row 20 "colormode" (pos b'c' ∷ []) 1
    ∷ row 21 "compress" (pos b's' ∷ []) 1
    ∷ row 23 "togglealias" (pos b'a' ∷ []) 1
    ∷ row 24 "pause" (pos b'p' ∷ []) 1
    ∷ row 25 "prevscreen" (key_esc ∷ pos b'q' ∷ pos b'Q' ∷ []) 3
    ∷ row 26 "help" (k.key_f (pos 1) ∷ pos b'h' ∷ pos b'H' ∷ pos b'?' ∷ []) 4
    ∷ row 27 "raw" (k.key_f (pos 6) ∷ pos b'R' ∷ pos b'r' ∷ []) 3
    ∷ row 28 "flow" (key_intro ∷ []) 1
    ∷ row 29 "flowex" (k.key_f (pos 4) ∷ pos b'x' ∷ []) 2
    ∷ row 30 "filters" (k.key_f (pos 7) ∷ pos b'f' ∷ pos b'F' ∷ []) 3
    ∷ row 31 "columns" (k.key_f (pos 10) ∷ pos b't' ∷ pos b'T' ∷ []) 3
    ∷ row 32 "settings" (k.key_f (pos 8) ∷ pos b'o' ∷ pos b'O' ∷ []) 3
    ∷ row 33 "stats" (pos b'i' ∷ []) 1
    ∷ row 34 "columnup" (pos b'-' ∷ []) 1
    ∷ row 35 "columndown" (pos b'+' ∷ []) 1
    ∷ row 36 "sdpinfo" (k.key_f (pos 2) ∷ pos b'd' ∷ []) 2
    ∷ row 37 "search" (k.key_f (pos 3) ∷ pos b'/' ∷ key_tab ∷ []) 3
    ∷ row 38 "save" (k.key_f (pos 2) ∷ pos b's' ∷ pos b'S' ∷ []) 3
    ∷ row 39 "select" (key_space ∷ []) 1
    ∷ row 40 "confirm" (key_intro ∷ []) 1
    ∷ row 41 "togglemedia" (k.key_f (pos 3) ∷ pos b'm' ∷ []) 2
    ∷ row 42 "onlymedia" (pos b'M' ∷ []) 1
    ∷ row 43 "rawpreview" (pos b't' ∷ []) 1
    ∷ row 44 "morerawpreview" (pos b'9' ∷ []) 1
    ∷ row 45 "lessrawpreview" (pos b'0' ∷ []) 1
    ∷ row 46 "resetrawpreview" (pos b'T' ∷ []) 1
    ∷ row 47 "onlysdp" (pos b'D' ∷ []) 1
    ∷ row 49 "autoscroll" (pos b'A' ∷ []) 1
    ∷ row 48 "hintalt" (pos b'K' ∷ []) 1
    ∷ row 50 "sortprev" (pos b'<' ∷ []) 1
    ∷ row 51 "sortnext" (pos b'>' ∷ []) 1
    ∷ row 52 "sortswap" (pos b'z' ∷ []) 1
    ∷ row 53 "toggletime" (pos b'w' ∷ []) 1
    ∷ no_row
    ∷ []

-- The loops over the table leave out its first row.
unfoldable pub find_row : List Binding → ℤ → Option Binding
find_row [] action = none
find_row (b ∷ bs) action = if eq_ℤ (pos b.id) action then some b else find_row bs action

-- `key_binding_data`
unfoldable pub key_binding_data : List Binding → ℤ → Option Binding
unfolding find_row
key_binding_data bs action = find_row (drop 1 bs) action

-- A write through the pointer that `key_binding_data` returns.
unfoldable pub set_row : (Binding → Binding) → ℤ → List Binding → List Binding
set_row f action [] = []
set_row f action (b ∷ bs) = if eq_ℤ (pos b.id) action then f b ∷ bs else b ∷ set_row f action bs

unfoldable pub set_binding : (Binding → Binding) → ℤ → List Binding → List Binding
unfolding set_row
set_binding f action [] = []
set_binding f action (b ∷ bs) = b ∷ set_row f action bs

-- What `key_bind_action` does to the binding of its action.
unfoldable pub bind_key : ℤ → Binding → Binding
bind_key key b =
    if b.bindcnt == max_bindings
    then b
    else record b { keys = set b.keys b.bindcnt key; bindcnt = b.bindcnt + 1 }

-- `key_bind_action`
unfoldable pub key_bind_action : List Binding → ℤ → ℤ → List Binding
unfolding set_binding bind_key
key_bind_action bs action key = set_binding (bind_key key) action bs

-- `memset(&bind->keys, 0, sizeof(int) * MAX_BINDINGS)`
unfoldable pub reset_keys : Binding → Binding
reset_keys b = record b { keys = replicate max_bindings (pos 0) }

-- The loop that binds again all keys but the one.
unfoldable pub rebind : ℤ → ℤ → List ℤ → List Binding → List Binding
unfolding key_bind_action
rebind action key [] bs = bs
rebind action key (x ∷ xs) bs =
    rebind action key xs (if eq_ℤ x key then bs else key_bind_action bs action x)

-- `key_unbind_action`
unfoldable pub key_unbind_action : List Binding → ℤ → ℤ → List Binding
unfolding key_binding_data set_binding reset_keys rebind
key_unbind_action bs action key = elim (key_binding_data bs action) [
  | none ↦ bs
  | some tmp ↦ rebind action key (take tmp.bindcnt tmp.keys) (set_binding reset_keys action bs)
]
