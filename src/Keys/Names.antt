-- ===== src/Keys/Names.antt =====
-- src/keybinding.c: keys and actions by name. What the loops read of the C library is a parameter:
-- `same_text a b` is `!strcasecmp(a, b)`, `same_start a b n` is `!strncasecmp(a, b, n)`.
use sngrep.Common.{
  ℕ, zero, suc, Bool, false, Option, none, some, List, [], ◌∷◌, ◌==◌, ◌&&◌, ◌||◌, ltb,
  if◌then◌else◌, ◌>>=◌, take, drop, length, get_elem?,
}
use sngrep.Common.Int.{ℤ, pos, negsuc, ltb_ℤ, eq_ℤ}
use sngrep.Codes.{codes}
use sngrep.Keys.{Binding, Curses, key_ctrl, key_esc, key_intro, key_binding_data}

pub record Libc : Type 0 where
  pub atoi : List ℕ → ℤ
  pub toupper : ℕ → ℕ
  pub same_text : List ℕ → List ℕ → Bool
  pub same_start : List ℕ → List ℕ → ℕ → Bool

-- `key_is_printable`
unfoldable pub key_is_printable : ℤ → Bool
key_is_printable key =
    eq_ℤ key (pos b' ')
    || (ltb_ℤ (pos 33) key && ltb_ℤ key (pos 126) || ltb_ℤ (pos 160) key && ltb_ℤ key (pos 255))

-- The inner loop over the keys of a binding.
unfoldable pub bound : ℤ → List ℤ → Bool
bound key [] = false
bound key (k ∷ ks) = eq_ℤ k key || bound key ks

-- The loop of `key_find_action` from the row `i`.
unfoldable pub find_loop : ℤ → ℕ → List Binding → ℤ
unfolding key_is_printable bound
find_loop key i [] = negsuc 0
find_loop key i (b ∷ bs) =
    if i == 0 && key_is_printable key
    then pos 0
    else (if bound key (take b.bindcnt b.keys) then pos b.id else find_loop key (suc i) bs)

-- `key_find_action`; a start below -1 is out of the table.
unfoldable pub key_find_action : List Binding → ℤ → ℤ → Option ℤ
unfolding find_loop
key_find_action bs key (pos n) = some (find_loop key (suc n) (drop (suc n) bs))
key_find_action bs key (negsuc zero) = some (find_loop key 0 bs)
key_find_action bs key (negsuc (suc n)) = none

module _ (libc : Libc) where
  -- `key_action_id`; to compare with the name of a row that has none is a fault.
  unfoldable pub id_loop : List Binding → List ℕ → Option ℤ
  id_loop [] action = some (negsuc 0)
  id_loop (b ∷ bs) action =
      b.name >>= λ n. if libc.same_text action n then some (pos b.id) else id_loop bs action

  unfoldable pub key_action_id : List Binding → List ℕ → Option ℤ
  unfolding id_loop
  key_action_id bs action = id_loop (drop 1 bs) action

  -- `key_from_str` of a text, less its test for NULL. The byte after the text is 0.
  unfoldable pub byte_at : List ℕ → ℕ → ℕ
  byte_at key i = elim (get_elem? key i) [ none ↦ 0 | some b ↦ b ]

  unfoldable pub key_from_str : Curses → Option (List ℕ) → ℤ
  unfolding byte_at key_ctrl
  key_from_str k none = pos 0
  key_from_str k (some key) =
      if length key == 1
      then pos (byte_at key 0)
      else (if byte_at key 0 == b'F'
          then k.key_f (libc.atoi (drop 1 key))
          else (if byte_at key 0 == b'^'
              then key_ctrl (pos (libc.toupper (byte_at key 1)))
              else (if libc.same_start key (codes "Ctrl-") 5
                  then key_ctrl (pos (libc.toupper (byte_at key 5)))
                  else (if libc.same_text key (codes "Esc")
                      then key_esc
                      else (if libc.same_text key (codes "Space")
                          then pos b' '
                          else (if libc.same_text key (codes "Enter")
                              then key_intro
                              else pos 0))))))

-- The function keys of `key_to_str`.
unfoldable pub function_key : Curses → ℤ → List (ℤ × List ℕ) → Option (List ℕ)
function_key k key [] = none
function_key k key ((n, text) ∷ rows) =
    if eq_ℤ key (k.key_f n) then some text else function_key k key rows

-- `key_to_str`
unfoldable pub key_to_str : Curses → ℤ → List ℕ
unfolding function_key key_is_printable
key_to_str k key =
    let names =
      (pos 1, codes "F1")
      ∷ (pos 2, codes "F2")
      ∷ (pos 3, codes "F3")
      ∷ (pos 4, codes "F4")
      ∷ (pos 5, codes "F5")
      ∷ (pos 6, codes "F6")
      ∷ (pos 7, codes "F7")
      ∷ (pos 8, codes "F8")
      ∷ (pos 9, codes "F9")
      ∷ (pos 10, codes "F10")
      ∷ [] in
    elim (function_key k key names) [
      | some text ↦ text
      | none ↦
          if eq_ℤ key key_esc
          then codes "Esc"
          else (if eq_ℤ key key_intro
              then codes "Enter"
              else (if eq_ℤ key (pos b' ')
                  then codes "Space"
                  else (if key_is_printable key then k.keyname key else [])))
    ]

-- `key_action_key`; `alt` is the setting of the hint. No binding is -1.
unfoldable pub key_action_key : List Binding → Bool → ℤ → Option ℤ
unfolding key_binding_data
key_action_key bs alt action = elim (key_binding_data bs action) [
  | none ↦ some (negsuc 0)
  | some b ↦ if alt && ltb 1 b.bindcnt then get_elem? b.keys 1 else get_elem? b.keys 0
]

-- `key_action_key_str`; the outer `none` is a fault, no binding is NULL.
unfoldable pub key_action_key_str : Curses → List Binding → Bool → ℤ → Option (Option (List ℕ))
unfolding key_binding_data key_to_str
key_action_key_str k bs alt action = elim (key_binding_data bs action) [
  | none ↦ some none
  | some b ↦ (if alt && ltb 1 b.bindcnt then get_elem? b.keys 1 else get_elem? b.keys 0) >>= λ key.
      some (some (key_to_str k key))
]
