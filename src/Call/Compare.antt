-- ===== src/Call/Compare.antt =====
-- src/sip_call.c, `call_attr_compare`: the order in which the call list is sorted.
use sngrep.Common.{ℕ, List, [], ◌∷◌, ◌==◌, ltb, if◌then◌else◌}
use sngrep.Common.Int.{ℤ, pos, negsuc}

-- `strcmp`, by its sign: bytes are compared as unsigned characters.
unfoldable pub strcmp : List ℕ → List ℕ → ℤ
strcmp [] [] = pos 0
strcmp [] (b ∷ bs) = negsuc 0
strcmp (a ∷ as') [] = pos 1
strcmp (a ∷ as') (b ∷ bs) = if ltb a b then negsuc 0 else (if ltb b a then pos 1 else strcmp as' bs)

-- An attribute that has no value is an empty text, and comes first.
unfoldable pub compare_texts : List ℕ → List ℕ → ℤ
unfolding strcmp
compare_texts [] [] = pos 0
compare_texts (a ∷ as') [] = pos 1
compare_texts [] (b ∷ bs) = negsuc 0
compare_texts (a ∷ as') (b ∷ bs) = strcmp (a ∷ as') (b ∷ bs)

unfoldable pub compare_ints : ℕ → ℕ → ℤ
compare_ints one two = if one == two then pos 0 else (if ltb two one then pos 1 else negsuc 0)

-- What the attribute of a sort gives of the call at an address: SIP_ATTR_CALLINDEX and
-- SIP_ATTR_MSGCNT a number, the others the text that `call_get_attribute` writes.
pub data Column : Type 0 where
  numbers : (ℕ → ℕ) → Column
  texts : (ℕ → List ℕ) → Column

-- `call_attr_compare`
unfoldable pub call_attr_compare : Column → ℕ → ℕ → ℤ
unfolding compare_texts compare_ints
call_attr_compare (numbers f) one two = compare_ints (f one) (f two)
call_attr_compare (texts f) one two = compare_texts (f one) (f two)
