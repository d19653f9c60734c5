-- ===== src/Capture/Ip/Offset.antt =====
-- Lemmas on what is read behind the bytes of an outer header.
use sngrep.Common.{
  ℕ, suc, ◌+◌, ◌≡◌, refl, ◌∙◌, ap, List, [], ◌∷◌, ◌++◌, length, get_elem?, drop, leb, length-append,
  arith,
}
use sngrep.Capture.Ip.Header.{ip4_fields, ip4_at, be16}
use sngrep.Capture.Ip.Reasm.{bytes_at}
use sngrep.Capture.Ip.Copy.{get_elem?-append_right}

module _ (l r : List ℕ) where
  pub be16-append : (i : ℕ) → be16 (l ++ r) (length l + i) ≡ be16 r i
  unfolding be16
  be16-append i =
      let e : suc (length l + i) ≡ length l + suc i = omega arith in
      rw (get_elem?-append_right l r i, e, get_elem?-append_right l r (suc i)) refl

  get_elem?-append_start : get_elem? (l ++ r) (length l) ≡ get_elem? r 0
  get_elem?-append_start =
      let e : length l ≡ length l + 0 = omega arith in
      ap (get_elem? (l ++ r)) e ∙ get_elem?-append_right l r 0

  drop-append_right : (i : ℕ) → drop (length l + i) (l ++ r) ≡ drop i r
  drop-append_right i = go l
    where
      go : (l : List ℕ) → drop (length l + i) (l ++ r) ≡ drop i r
      go [] = let e : 0 + i ≡ i = omega arith in ap (λ n. drop n r) e
      go (x ∷ l) =
          let e : suc (length l) + i ≡ suc (length l + i) = omega arith in
          ap (λ n. drop n (x ∷ (l ++ r))) e ∙ go l

  leb-append : (i : ℕ) → leb (length l + i) (length (l ++ r)) ≡ leb i (length r)
  leb-append i = let e = length-append l r in ground arith

  -- An IP header is read as if nothing stood before it.
  pub ip4_at-append : ip4_at (l ++ r) (length l) ≡ ip4_at r 0
  unfolding ip4_at ip4_fields
  ip4_at-append =
      rw
        (
          get_elem?-append_start,
          be16-append 2,
          be16-append 4,
          be16-append 6,
          get_elem?-append_right l r 9,
          leb-append 20,
          drop-append_right 12,
          drop-append_right 16,
        )
        refl

  pub bytes_at-append : (i n : ℕ) → bytes_at (l ++ r) (length l + i) n ≡ bytes_at r i n
  unfolding bytes_at
  bytes_at-append i n =
      let e : length l + i + n ≡ length l + (i + n) = omega arith in
      rw (e, leb-append (i + n), drop-append_right i) refl
