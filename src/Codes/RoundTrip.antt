-- ===== src/Codes/RoundTrip.antt =====
-- src/sip.c: a code is found again from its name.
use sngrep.Common.{
  ℕ, some, List, [], ◌∷◌, ◌==◌, ==_iff, ◌&&◌, not, Bool, true, false, ◌≡◌, refl, Bool-cases, inl,
  inr, arith,
}
use sngrep.Common.Int.{ℤ, pos}
use sngrep.Hash.{key_eq}
use sngrep.Hash.View.{key_eq_refl}
use sngrep.Codes.{sip_codes, text_of, id_of, sip_method_str, sip_method_from_str}

-- No row of the table has the text.
absent : List ℕ → List (ℕ × List ℕ) → Bool
absent t [] = true
absent t ((id, text) ∷ rows) = not (key_eq text t) && absent t rows

-- All texts of the table are different.
unlike : List (ℕ × List ℕ) → Bool
unfolding absent
unlike [] = true
unlike ((id, text) ∷ rows) = absent text rows && unlike rows

all_unlike : unlike sip_codes ≡ true
unfolding unlike
all_unlike = refl

absent-text_of :
    (rows : List (ℕ × List ℕ)) (k : ℕ) (t s : List ℕ)
    → absent s rows ≡ true
    → text_of rows k ≡ some t
    → key_eq t s ≡ false
unfolding absent text_of
absent-text_of [] k t s a e = cc
absent-text_of ((id, text) ∷ rows) k t s a e = elim (Bool-cases (k == id)) [
  | inl y ↦
      let same : some text ≡ some t = rw y at e in
      let there : text ≡ t = cc in rw (← there) (ground (arith, a))
  | inr n ↦ absent-text_of rows k t s (ground (arith, a)) (rw n at e)
]

id_of-text_of :
    (rows : List (ℕ × List ℕ)) (k : ℕ) (t : List ℕ)
    → unlike rows ≡ true
    → text_of rows k ≡ some t
    → id_of rows t ≡ some k
unfolding unlike text_of id_of
id_of-text_of [] k t u e = cc
id_of-text_of ((id, text) ∷ rows) k t u e = elim (Bool-cases (k == id)) [
  | inl y ↦
      let same : some text ≡ some t = rw y at e in
      let there : text ≡ t = cc in rw (← there, key_eq_refl text, (==_iff k id).0 y) refl
  | inr n ↦
      let later : text_of rows k ≡ some t = rw n at e in
      let other : key_eq t text ≡ false = absent-text_of rows k t text (ground (arith, u)) later in
      rw other (id_of-text_of rows k t (ground (arith, u)) later)
]

-- If `sip_method_str` names a code, `sip_method_from_str` finds that code again from the name.
pub sip_method_from_str-sip_method_str :
    (atoi : List ℕ → ℤ) (k : ℕ) (t : List ℕ)
    → sip_method_str k ≡ some t
    → sip_method_from_str atoi t ≡ pos k
unfolding sip_method_str sip_method_from_str
sip_method_from_str-sip_method_str atoi k t e =
    rw (sip_method_from_str, id_of-text_of sip_codes k t all_unlike e) refl
