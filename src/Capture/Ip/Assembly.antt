-- ===== src/Capture/Ip/Assembly.antt =====
-- src/capture.c, `capture_packet_reasm_ip`: the fragments of a datagram put together.
use sngrep.Common.{
  ℕ, ◌+◌, ◌-◌, ◌≤◌, ◌<◌, ◌≡◌, ◌⊎◌, inl, inr, refl, ◌∙◌, ap, some, List, [], ◌∷◌, length, map, take,
  drop, replicate, get_elem?, ltb, le→ltb, Bool-cases, ltb→lt, ◌>>=◌, fold_steps, All, length-take,
  length-drop, length-replicate, arith, ◌%◌,
}
use sngrep.Vector.{u32}
use sngrep.Packet.{Frame}
use sngrep.Capture.Sizes.{max_capture_len}
use sngrep.Capture.Ip.Header.{Ip4, ip4_at, sub_u32}
use sngrep.Capture.Ip.Reasm.{frag_off, bytes_at, add_len_data, copy_frame, assemble}
use sngrep.Capture.Ip.Copy.{
  get_elem?-take, get_elem?-drop, part_eq, written, memcpy_to-written, length-written,
  get_elem?-written, get_elem?-written_before, get_elem?-written_after,
}

-- A captured frame, and the part of the datagram that it should hold.
pub record Piece : Type 0 where
  pub frame : Frame
  pub off : ℕ
  pub len : ℕ

-- The part of the datagram.
unfoldable pub part : List ℕ → Piece → List ℕ
part datagram p = take p.len (drop p.off datagram)

-- The frame is captured as a whole, and holds its part of the datagram behind an IP header.
pub record Fragment (datagram : List ℕ) (link_hl : ℕ) (p : Piece) : Type 0 where
  pub bytes : List ℕ
  pub ip4 : Ip4
  pub captured : p.frame.bytes ≡ some bytes
  pub header : ip4_at bytes link_hl ≡ some ip4
  pub ip_len : ip4.ip_len ≡ ip4.ip_hl + p.len
  pub short : ip4.ip_len < 65536
  pub offset : frag_off ip4 ≡ p.off
  pub content : bytes_at bytes (link_hl + ip4.ip_hl) p.len ≡ some (part datagram p)
  pub inside : p.off + p.len ≤ length datagram

-- The lengths of the pieces, added up.
unfoldable pub total : List Piece → ℕ
total [] = 0
total (p ∷ ps) = p.len + total ps

-- The place lies in one of the pieces.
abbrev pub Covered : ℕ → List Piece → Type 0
Covered i [] = ⊥
Covered i (p ∷ ps) = ((p.off ≤ i) × (i < p.off + p.len)) ⊎ Covered i ps

length-part :
    (datagram : List ℕ) (p : Piece)
    → p.off + p.len ≤ length datagram
    → length (part datagram p) ≡ p.len
unfolding part
length-part datagram p h =
    omega (arith, length-take p.len (drop p.off datagram), length-drop p.off datagram, h)

module _ (datagram : List ℕ) (link_hl base : ℕ) where
  -- The length of the content of each frame is counted.
  add_len_data-Fragment :
      (p : Piece) (n : ℕ)
      → Fragment datagram link_hl p
      → n + p.len < u32
      → add_len_data link_hl n p.frame ≡ some (n + p.len)
  unfolding add_len_data
  add_len_data-Fragment p n f small =
      let len : (n + sub_u32 f.ip4.ip_len f.ip4.ip_hl) % u32 ≡ n + p.len =
        omega (arith, f.ip_len, f.short, small) in
      rw (f.captured, f.header) (ap some len)

  fold_steps-add_len_data :
      (ps : List Piece) (n : ℕ)
      → All (Fragment datagram link_hl) ps
      → n + total ps < u32
      → fold_steps (add_len_data link_hl) n (map (λ (p : Piece). p.frame) ps) ≡ some (n + total ps)
  unfolding total
  fold_steps-add_len_data [] n fs small = ap some (omega arith)
  fold_steps-add_len_data (p ∷ ps) n fs small =
      ap (λ o. o >>= λ n'. fold_steps (add_len_data link_hl) n' (map (λ (p : Piece). p.frame) ps))
        (add_len_data-Fragment p n fs.0 (omega arith))
      ∙ fold_steps-add_len_data ps (n + p.len) fs.1 (omega arith)
      ∙ ap some (omega arith)

  part_room :
      (p : Piece) (buffer : List ℕ)
      → p.off + p.len ≤ length datagram
      → base + length datagram ≤ length buffer
      → base + p.off + length (part datagram p) ≤ length buffer
  part_room p buffer inside room = omega (arith, length-part datagram p inside)

  -- What the buffer is after a frame was copied.
  copy_frame-Fragment :
      (p : Piece) (buffer : List ℕ)
      → Fragment datagram link_hl p
      → base + length datagram ≤ length buffer
      → copy_frame link_hl base buffer p.frame
        ≡ some (written (base + p.off) (part datagram p) buffer)
  unfolding copy_frame part
  copy_frame-Fragment p buffer f room =
      let len : f.ip4.ip_len - f.ip4.ip_hl ≡ p.len = omega (arith, f.ip_len) in
      rw
        (
          f.captured,
          f.header,
          le→ltb f.ip4.ip_len f.ip4.ip_hl (omega (arith, f.ip_len)),
          len,
          f.content,
          f.offset,
        )
        (memcpy_to-written (base + p.off) (part datagram p) buffer
          (part_room p buffer f.inside room))

  -- The place in the buffer holds the byte of the datagram.
  abbrev Right : List ℕ → ℕ → Type 0
  Right buffer i = get_elem? buffer (base + i) ≡ get_elem? datagram i

  module _ (p : Piece) (buffer : List ℕ) (inside : p.off + p.len ≤ length datagram)
      (room : base + length datagram ≤ length buffer) where
    fits : base + p.off + length (part datagram p) ≤ length buffer
    fits = part_room p buffer inside room

    written_in :
        (i : ℕ)
        → p.off ≤ i
        → i < p.off + p.len
        → Right (written (base + p.off) (part datagram p) buffer) i
    unfolding part
    written_in i low high =
        let k = i - p.off in
        let e : base + i ≡ base + p.off + k = omega (arith, low) in
        let e' : p.off + k ≡ i = omega (arith, low) in
        let short : k < length (part datagram p) =
          omega (arith, length-part datagram p inside, low, high) in
        ap (get_elem? (written (base + p.off) (part datagram p) buffer)) e
        ∙ get_elem?-written (base + p.off) (part datagram p) buffer fits k short
        ∙ get_elem?-take p.len k (drop p.off datagram) (omega (arith, low, high))
        ∙ get_elem?-drop p.off k datagram
        ∙ ap (get_elem? datagram) e'

    written_keeps :
        (i : ℕ) → Right buffer i → Right (written (base + p.off) (part datagram p) buffer) i
    written_keeps i right = elim (Bool-cases (ltb i p.off)) [
      | inl t ↦
          let h = ltb→lt i p.off t in
          get_elem?-written_before (base + p.off) (part datagram p) buffer fits (base + i)
            (omega (arith, h))
          ∙ right
      | inr f ↦ elim (Bool-cases (ltb i (p.off + p.len))) [
        | inl t ↦ written_in i (ground arith) (ltb→lt i (p.off + p.len) t)
        | inr g ↦
            let h : p.off + p.len ≤ i = ground arith in
            get_elem?-written_after (base + p.off) (part datagram p) buffer fits (base + i)
              (omega (arith, length-part datagram p inside, h))
            ∙ right
      ]
    ]

  fold_steps-copy_frame :
      (ps : List Piece) (buffer : List ℕ)
      → All (Fragment datagram link_hl) ps
      → base + length datagram ≤ length buffer
      → (b : List ℕ) × (fold_steps
            (copy_frame link_hl base)
            buffer
            (map (λ (p : Piece). p.frame) ps)
          ≡ some b)
        × (length b ≡ length buffer)
        × ((i : ℕ) → Right buffer i ⊎ Covered i ps → Right b i)
  fold_steps-copy_frame [] buffer fs room =
      (buffer, refl, refl, λ i h. elim h [ inl r ↦ r | inr c ↦ elim c [ ] ])
  fold_steps-copy_frame (p ∷ ps) buffer fs room =
      let f : Fragment datagram link_hl p = fs.0 in
      let after : List ℕ = written (base + p.off) (part datagram p) buffer in
      let len : length after ≡ length buffer =
        length-written (base + p.off) (part datagram p) buffer (fits p buffer f.inside room) in
      let (b, run, len', right) = fold_steps-copy_frame ps after fs.1 (omega (arith, len, room)) in
      (
        b,
        ap
              (λ o.
                o >>= λ b. fold_steps (copy_frame link_hl base) b (map (λ (p : Piece). p.frame) ps))
              (copy_frame-Fragment p buffer f room)
            ∙ run,
        len' ∙ len,
        λ i h. right i (elim h [
          | inl r ↦ inl (written_keeps p buffer f.inside room i r)
          | inr c ↦ elim c [
            | inl here ↦ inl (written_in p buffer f.inside room i here.0 here.1)
            | inr there ↦ inr there
          ]
        ]),
      )

  -- If frames in any order hold the fragments of a datagram of at most MAX_CAPTURE_LEN bytes, each
  -- captured as a whole, which cover the datagram and together have its length, and the datagram
  -- fits into the buffer behind the headers, then the loops of `capture_packet_reasm_ip` over the
  -- frames return: the length is that of the datagram, the buffer keeps its size, and behind the
  -- headers it holds the datagram.
  pub assemble-Fragment :
      (ps : List Piece) (buffer : List ℕ)
      → All (Fragment datagram link_hl) ps
      → ((i : ℕ) → i < length datagram → Covered i ps)
      → total ps ≡ length datagram
      → length datagram ≤ max_capture_len
      → base + length datagram ≤ length buffer
      → (b : List ℕ) × (assemble (map (λ (p : Piece). p.frame) ps) link_hl base buffer
          ≡ some (some (length datagram, b)))
        × (length b ≡ length buffer)
        × (take (length datagram) (drop base b) ≡ datagram)
  unfolding assemble
  assemble-Fragment ps buffer fs covered sum small room =
      let n = length datagram in
      let zeros : List ℕ = replicate (base + n) 0 in
      let zlen : length zeros ≡ base + n = length-replicate (base + n) 0 in
      let cleared : List ℕ = written 0 zeros buffer in
      let zroom : 0 + length zeros ≤ length buffer = omega (arith, zlen, room) in
      let clen = length-written 0 zeros buffer zroom in
      let count : fold_steps (add_len_data link_hl) 0 (map (λ (p : Piece). p.frame) ps) ≡ some n =
        fold_steps-add_len_data ps 0 fs (omega (arith, sum, small))
        ∙ ap some (omega (arith, sum)) in
      let (b, run, len, right) = fold_steps-copy_frame ps cleared fs (omega (arith, clen, room)) in
      (
        b,
        rw (count, le→ltb max_capture_len n small, memcpy_to-written 0 zeros buffer zroom, run)
            refl,
        len ∙ clen,
        part_eq base datagram b (omega (arith, len, clen, room))
            (λ i h. right i (inr (covered i h))),
      )
