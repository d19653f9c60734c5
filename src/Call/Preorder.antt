-- ===== src/Call/Preorder.antt =====
-- src/sip_call.c: `call_attr_compare` orders the calls.
use sngrep.Common.{ℕ, ◌≤◌, ◌<◌, ◌≡◌, refl, Bool, false, List, [], ◌∷◌, arith}
use sngrep.Common.Int.{ℤ, pos, ltb_ℤ}
use sngrep.Call.Compare.{
  strcmp, compare_texts, compare_ints, Column, numbers, texts, call_attr_compare,
}

-- `cmp > 0` and `cmp < 0`
abbrev pub positive : ℤ → Bool
positive z = ltb_ℤ (pos 0) z

abbrev pub negative : ℤ → Bool
negative z = ltb_ℤ z (pos 0)

strcmp_flip : (a b : List ℕ) → positive (strcmp a b) ≡ negative (strcmp b a)
unfolding strcmp
strcmp_flip [] [] = refl
strcmp_flip [] (y ∷ b) = refl
strcmp_flip (x ∷ a) [] = refl
strcmp_flip (x ∷ a) (y ∷ b) = ground (arith, strcmp_flip a b)

strcmp_trans :
    (a b c : List ℕ)
    → positive (strcmp a b) ≡ false
    → positive (strcmp b c) ≡ false
    → positive (strcmp a c) ≡ false
unfolding strcmp
strcmp_trans [] b [] p q = refl
strcmp_trans [] b (z ∷ c) p q = refl
strcmp_trans (x ∷ a) [] c p q = cc
strcmp_trans (x ∷ a) (y ∷ b) [] p q = q
strcmp_trans (x ∷ a) (y ∷ b) (z ∷ c) p q = ground (arith, strcmp_trans a b c)

-- The tests for empty texts change nothing: they answer what `strcmp` would.
compare_texts-strcmp : (a b : List ℕ) → compare_texts a b ≡ strcmp a b
unfolding compare_texts strcmp
compare_texts-strcmp [] [] = refl
compare_texts-strcmp [] (y ∷ b) = refl
compare_texts-strcmp (x ∷ a) [] = refl
compare_texts-strcmp (x ∷ a) (y ∷ b) = refl

-- `call_attr_compare` of two calls is positive just if that of the calls swapped is negative.
pub call_attr_compare_flip :
    (col : Column) (a b : ℕ)
    → positive (call_attr_compare col a b) ≡ negative (call_attr_compare col b a)
unfolding call_attr_compare compare_ints
call_attr_compare_flip (numbers f) a b = ground arith
call_attr_compare_flip (texts f) a b =
    rw (compare_texts-strcmp (f a) (f b), compare_texts-strcmp (f b) (f a))
      (strcmp_flip (f a) (f b))

-- The order of texts: byte by byte, a text before those that go on.
pub data TextLe : List ℕ → List ℕ → Type 0 where
  ended : {b : List ℕ} → TextLe [] b
  less : {x y : ℕ} {a b : List ℕ} → x < y → TextLe (x ∷ a) (y ∷ b)
  equal : {x y : ℕ} {a b : List ℕ} → x ≡ y → TextLe a b → TextLe (x ∷ a) (y ∷ b)

-- The order of calls by a column.
abbrev pub Le : Column → ℕ → ℕ → Type 0
Le (numbers f) a b = f a ≤ f b
Le (texts f) a b = TextLe (f a) (f b)

-- So it is transitive.
pub call_attr_compare_trans :
    (col : Column) (a b c : ℕ)
    → positive (call_attr_compare col a b) ≡ false
    → positive (call_attr_compare col b c) ≡ false
    → positive (call_attr_compare col a c) ≡ false
unfolding call_attr_compare compare_ints
call_attr_compare_trans (numbers f) a b c p q = ground arith
call_attr_compare_trans (texts f) a b c p q = rw (compare_texts-strcmp (f a) (f c)) (
    strcmp_trans (f a) (f b) (f c) (rw (compare_texts-strcmp (f a) (f b)) at p)
      (rw (compare_texts-strcmp (f b) (f c)) at q))
