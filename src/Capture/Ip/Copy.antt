-- ===== src/Capture/Ip/Copy.antt =====
-- Lemmas on `memcpy` into a buffer: which byte stands where afterwards.
use sngrep.Common.{
  ℕ, zero, suc, ◌+◌, ◌-◌, ◌≤◌, ◌<◌, ◌≡◌, refl, sym, ◌∙◌, ap, some, List, [], ◌∷◌, ◌++◌, length,
  get_elem?, take, drop, le→leb, length-append, length-take, length-drop, arith,
}
use sngrep.Capture.Ip.Reasm.{memcpy_to}

get_elem?-append_left :
    (xs ys : List ℕ) (i : ℕ) → i < length xs → get_elem? (xs ++ ys) i ≡ get_elem? xs i
get_elem?-append_left [] ys i h = ground arith
get_elem?-append_left (x ∷ xs) ys zero h = refl
get_elem?-append_left (x ∷ xs) ys (suc i) h = get_elem?-append_left xs ys i (omega arith)

pub get_elem?-append_right :
    (xs ys : List ℕ) (i : ℕ) → get_elem? (xs ++ ys) (length xs + i) ≡ get_elem? ys i
get_elem?-append_right [] ys i = let e : 0 + i ≡ i = omega arith in ap (get_elem? ys) e
get_elem?-append_right (x ∷ xs) ys i =
    let e : suc (length xs) + i ≡ suc (length xs + i) = omega arith in
    ap (get_elem? (x ∷ (xs ++ ys))) e ∙ get_elem?-append_right xs ys i

pub get_elem?-drop : (n i : ℕ) (xs : List ℕ) → get_elem? (drop n xs) i ≡ get_elem? xs (n + i)
get_elem?-drop zero i xs = let e : i ≡ 0 + i = omega arith in ap (get_elem? xs) e
get_elem?-drop (suc n) i [] = refl
get_elem?-drop (suc n) i (x ∷ xs) =
    let e : suc (n + i) ≡ suc n + i = omega arith in
    get_elem?-drop n i xs ∙ ap (get_elem? (x ∷ xs)) e

pub get_elem?-take : (n i : ℕ) (xs : List ℕ) → i < n → get_elem? (take n xs) i ≡ get_elem? xs i
get_elem?-take zero i xs h = ground arith
get_elem?-take (suc n) i [] h = refl
get_elem?-take (suc n) zero (x ∷ xs) h = refl
get_elem?-take (suc n) (suc i) (x ∷ xs) h = get_elem?-take n i xs (omega arith)

-- Two lists of the same length that agree at each place.
ext :
    (xs ys : List ℕ)
    → length xs ≡ length ys
    → ((i : ℕ) → i < length ys → get_elem? xs i ≡ get_elem? ys i)
    → xs ≡ ys
ext [] [] e h = refl
ext [] (y ∷ ys) e h = ground arith
ext (x ∷ xs) [] e h = ground arith
ext (x ∷ xs) (y ∷ ys) e h =
    let head : some x ≡ some y = h 0 (omega arith) in
    let tail : xs ≡ ys = ext xs ys (omega arith) (λ i k. h (suc i) (omega arith)) in cc

-- The part of a buffer, read from its bytes.
pub part_eq :
    (base : ℕ) (bytes buffer : List ℕ)
    → base + length bytes ≤ length buffer
    → ((i : ℕ) → i < length bytes → get_elem? buffer (base + i) ≡ get_elem? bytes i)
    → take (length bytes) (drop base buffer) ≡ bytes
part_eq base bytes buffer room same =
    ext _ bytes
      (omega (arith, length-take (length bytes) (drop base buffer), length-drop base buffer))
      (λ i h.
        get_elem?-take (length bytes) i (drop base buffer) h
        ∙ get_elem?-drop base i buffer
        ∙ same i h)

-- The buffer with the bytes at a place.
unfoldable pub written : ℕ → List ℕ → List ℕ → List ℕ
written at bytes buffer = take at buffer ++ (bytes ++ drop (at + length bytes) buffer)

module _ (at : ℕ) (bytes buffer : List ℕ) (room : at + length bytes ≤ length buffer) where
  pub memcpy_to-written : memcpy_to buffer at bytes ≡ some (written at bytes buffer)
  unfolding memcpy_to written
  memcpy_to-written = rw (le→leb (at + length bytes) (length buffer) room) refl

  front : length (take at buffer) ≡ at
  front = omega (arith, length-take at buffer, room)

  pub length-written : length (written at bytes buffer) ≡ length buffer
  unfolding written
  length-written = omega (
    arith,
    front,
    length-append (take at buffer) (bytes ++ drop (at + length bytes) buffer),
    length-append bytes (drop (at + length bytes) buffer),
    length-drop (at + length bytes) buffer,
    room,
  )

  -- A place behind the start of the copy.
  behind :
      (i : ℕ)
      → get_elem? (written at bytes buffer) (at + i)
        ≡ get_elem? (bytes ++ drop (at + length bytes) buffer) i
  unfolding written
  behind i =
      ap (λ (n : ℕ). get_elem? (written at bytes buffer) (n + i)) (sym front)
      ∙ get_elem?-append_right (take at buffer) (bytes ++ drop (at + length bytes) buffer) i

  pub get_elem?-written :
      (i : ℕ) → i < length bytes → get_elem? (written at bytes buffer) (at + i) ≡ get_elem? bytes i
  get_elem?-written i h = behind i ∙ get_elem?-append_left bytes _ i h

  pub get_elem?-written_before :
      (j : ℕ) → j < at → get_elem? (written at bytes buffer) j ≡ get_elem? buffer j
  unfolding written
  get_elem?-written_before j h =
      get_elem?-append_left (take at buffer) _ j (omega (arith, front, h))
      ∙ get_elem?-take at j buffer h

  pub get_elem?-written_after :
      (j : ℕ) → at + length bytes ≤ j → get_elem? (written at bytes buffer) j ≡ get_elem? buffer j
  get_elem?-written_after j h =
      let k = j - (at + length bytes) in
      let e1 : j ≡ at + (length bytes + k) = omega (arith, h) in
      let e2 : (at + length bytes) + k ≡ j = omega (arith, h) in
      ap (get_elem? (written at bytes buffer)) e1
      ∙ behind (length bytes + k)
      ∙ get_elem?-append_right bytes (drop (at + length bytes) buffer) k
      ∙ get_elem?-drop (at + length bytes) k buffer
      ∙ ap (get_elem? buffer) e2
