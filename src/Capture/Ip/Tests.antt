-- ===== src/Capture/Ip/Tests.antt =====
-- Runs of `capture_packet_reasm_ip` on fragments and on headers in headers.
use sngrep.Common.{
  ◌%◌, take, drop, replicate, ◌≢◌, ℕ, ◌+◌, ◌≤◌, ◌<◌, ◌≡◌, refl, ap, Option, none, some, List, [],
  ◌∷◌, ◌++◌, leb, length, Bool-cases, inl, inr, arith,
}
use sngrep.Packet.{Frame}
use sngrep.Capture.Ip.{
  Ip4, starved, be16, ip4_at, ip4_fields, ip_headers, frag_off, bytes_at, assemble,
}
use sngrep.Capture.Ip.Assembly.{Piece, Fragment, Covered, part, total, assemble-Fragment}
use sngrep.Capture.Ip.Loops.{Reach, here, inner, ip_headers_ends, ip_headers_endless}

-- Two fragments that came in the wrong order, behind an Ethernet header of no bytes.
abbrev fragment : ℕ → ℕ → List ℕ → Frame
fragment high low content = record {
  time = record { tv_sec = 1; tv_usec = 0 };
  bytes = some (
      69
      ∷ 0
      ∷ 0
      ∷ (20 + length content)
      ∷ 0
      ∷ 7
      ∷ high
      ∷ low
      ∷ 64
      ∷ 17
      ∷ 0
      ∷ 0
      ∷ 1
      ∷ 1
      ∷ 1
      ∷ 1
      ∷ 2
      ∷ 2
      ∷ 2
      ∷ 2
      ∷ content);
}

abbrev ten_bytes : List ℕ
ten_bytes = 1 ∷ 2 ∷ 3 ∷ 4 ∷ 5 ∷ 6 ∷ 7 ∷ 8 ∷ 9 ∷ 10 ∷ []

abbrev last_piece : Piece
last_piece = record { frame = fragment 0 1 (9 ∷ 10 ∷ []); off = 8; len = 2 }

abbrev first_piece : Piece
first_piece = record { frame = fragment 32 0 (take 8 ten_bytes); off = 0; len = 8 }

last_piece-Fragment : Fragment ten_bytes 0 last_piece
unfolding ip4_at be16 ip4_fields frag_off bytes_at part
last_piece-Fragment = record {
  bytes = _;
  ip4 = _;
  captured = refl;
  header = refl;
  ip_len = refl;
  short = omega arith;
  offset = refl;
  content = refl;
  inside = omega arith;
}

first_piece-Fragment : Fragment ten_bytes 0 first_piece
unfolding ip4_at be16 ip4_fields frag_off bytes_at part
first_piece-Fragment = record {
  bytes = _;
  ip4 = _;
  captured = refl;
  header = refl;
  ip_len = refl;
  short = omega arith;
  offset = refl;
  content = refl;
  inside = omega arith;
}

both_cover : (i : ℕ) → i < 10 → Covered i (last_piece ∷ first_piece ∷ [])
both_cover i h = elim (Bool-cases (leb 8 i)) [
  | inl t ↦ inl ((ground arith, omega (arith, h)))
  | inr f ↦ inr (inl ((omega arith, ground arith)))
]

assemble-Fragment_example :
    (b : List ℕ) × (assemble (last_piece.frame ∷ first_piece.frame ∷ []) 0 20 (replicate 40 255)
      ≡ some (some (10, b)))
    × (length b ≡ 40)
    × (take 10 (drop 20 b) ≡ ten_bytes)
unfolding total
assemble-Fragment_example =
    assemble-Fragment ten_bytes 0 20 (last_piece ∷ first_piece ∷ []) (replicate 40 255)
      (last_piece-Fragment, (first_piece-Fragment, tt)) both_cover refl (omega arith) (omega arith)

-- A header of no bytes that says that it contains an IP packet.
abbrev empty_header : List ℕ
empty_header = 64 ∷ 0 ∷ 0 ∷ 40 ∷ 0 ∷ 0 ∷ 0 ∷ 0 ∷ 64 ∷ 4 ∷ replicate 30 0

ip_headers_endless_example : ip_headers 100 empty_header 0 40 none ≡ starved
unfolding ip4_at be16 ip4_fields
ip_headers_endless_example =
    ip_headers_endless empty_header 0 _ refl refl refl refl (omega arith) (omega arith)
      (omega arith) 100 40 none (omega arith)

-- An IP packet in an IP packet.
abbrev nested : List ℕ
nested = 69 ∷ 0 ∷ 0 ∷ 40 ∷ 0 ∷ 0 ∷ 0 ∷ 0 ∷ 64 ∷ 4 ∷ (replicate 10 0 ++ 69 ∷ replicate 19 0)

NestedHeader : ℕ → Ip4 → Type 0
NestedHeader at h = ip4_at nested at ≡ some h

from_end : (a b : ℕ) (h : Ip4) → a ≡ 40 → Reach nested a b → NestedHeader b h → 20 ≤ h.ip_hl
unfolding NestedHeader ip4_at be16 ip4_fields
from_end a b h e (here at) g = let f : none ≡ some h = rw e at g in cc
from_end a b h e (inner at to h' g' r) g = let f : none ≡ some h' = rw e at g' in cc

size_of : (o : Option Ip4) → ℕ
size_of none = 20
size_of (some h) = h.ip_hl

from_inner : (a b : ℕ) (h : Ip4) → a ≡ 20 → Reach nested a b → NestedHeader b h → 20 ≤ h.ip_hl
unfolding NestedHeader ip4_at be16 ip4_fields size_of
from_inner a b h e (here at) g =
    let size : 20 ≡ h.ip_hl = ap size_of (rw e at g) in omega (arith, size)
from_inner a b h e (inner at to h' g' r) g =
    let size : 20 ≡ h'.ip_hl = ap size_of (rw e at g') in
    from_end ((at + h'.ip_hl) % 65536) to h (omega (arith, size, e)) r g

from_outer : (a b : ℕ) (h : Ip4) → a ≡ 0 → Reach nested a b → NestedHeader b h → 20 ≤ h.ip_hl
unfolding NestedHeader ip4_at be16 ip4_fields size_of
from_outer a b h e (here at) g =
    let size : 20 ≡ h.ip_hl = ap size_of (rw e at g) in omega (arith, size)
from_outer a b h e (inner at to h' g' r) g =
    let size : 20 ≡ h'.ip_hl = ap size_of (rw e at g') in
    from_inner ((at + h'.ip_hl) % 65536) to h (omega (arith, size, e)) r g

ip_headers_ends_example : ip_headers 6 nested 0 40 none ≢ starved
unfolding NestedHeader
ip_headers_ends_example =
    ip_headers_ends 6 nested 0 40 none (λ at h r e. from_outer 0 at h refl r e) (omega arith)
      (omega arith) (omega arith)
