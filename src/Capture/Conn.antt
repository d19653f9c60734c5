-- ===== src/Capture/Conn.antt =====
-- Lemmas on the packets that wait in `tcp_reasm`: finding, replacing and removing that of one
-- connection.
use sngrep.Common.{
  ◌≡◌, refl, sym, ◌∙◌, ◌==◌, ==_iff, ==_refl, true, false, none, some, List, [], ◌∷◌, ◌++◌,
  Bool-cases, inl, inr, subst,
}
use sngrep.Hash.View.{key_eq_refl, key_eq→eq}
use sngrep.Address.{Address, addressport_equals}
use sngrep.Packet.{Packet}
use sngrep.Capture.Tcp.{same_conn, find_conn, put_conn, drop_conn}

addressport_equals_refl : (a : Address) → addressport_equals a a ≡ true
unfolding addressport_equals
addressport_equals_refl a = rw (==_refl a.port, key_eq_refl a.ip) refl

addressport_equals→eq : (a b : Address) → addressport_equals a b ≡ true → a ≡ b
unfolding addressport_equals
addressport_equals→eq a b e = elim (Bool-cases (a.port == b.port)) [
  | inl t ↦
      let ip_eq : a.ip ≡ b.ip = key_eq→eq a.ip b.ip (rw t at e) in
      let port_eq : a.port ≡ b.port = (==_iff a.port b.port).0 t in
      λ i. record { ip = ip_eq i; port = port_eq i }
  | inr f ↦ let impossible : false ≡ true = rw f at e in cc
]

-- The same addresses and ports on both sides.
unfoldable pub Peers : Packet → Packet → Type 0
Peers p q = (p.src ≡ q.src) × (p.dst ≡ q.dst)

pub same_conn_refl : (p : Packet) → same_conn p p ≡ true
unfolding same_conn
same_conn_refl p = rw (addressport_equals_refl p.src, addressport_equals_refl p.dst) refl

pub same_conn-Peers : (p q : Packet) → same_conn p q ≡ true → Peers p q
unfolding same_conn Peers
same_conn-Peers p q e = elim (Bool-cases (addressport_equals p.src q.src)) [
  | inl t ↦ (addressport_equals→eq p.src q.src t, addressport_equals→eq p.dst q.dst (rw t at e))
  | inr f ↦ let impossible : false ≡ true = rw f at e in cc
]

pub same_conn_left : (p p' q : Packet) → Peers p p' → same_conn p q ≡ same_conn p' q
unfolding same_conn Peers
same_conn_left p p' q e = rw (e.0, e.1) refl

pub same_conn_right : (p q q' : Packet) → Peers q q' → same_conn p q ≡ same_conn p q'
unfolding same_conn Peers
same_conn_right p q q' e = rw (e.0, e.1) refl

pub find_conn_right :
    (r : List Packet) (q q' : Packet) → Peers q q' → find_conn r q ≡ find_conn r q'
unfolding find_conn
find_conn_right [] q q' e = refl
find_conn_right (x ∷ r) q q' e = rw (same_conn_right x q q' e, find_conn_right r q q' e) refl

-- At most one packet waits for each connection.
abbrev pub Unique : List Packet → Type 0
Unique [] = Unit
Unique (x ∷ r) = (find_conn r x ≡ none) × Unique r

pub find_conn-put_conn :
    (r : List Packet) (p q : Packet) → Peers p q → find_conn (put_conn r p) q ≡ some p
unfolding find_conn put_conn
find_conn-put_conn [] p q e = rw (sym (same_conn_right p p q e), same_conn_refl p) refl
find_conn-put_conn (x ∷ r) p q e = elim (Bool-cases (same_conn x p)) [
  | inl t ↦ rw (t, sym (same_conn_right p p q e), same_conn_refl p) refl
  | inr f ↦
      let other : same_conn x q ≡ false = sym (same_conn_right x p q e) ∙ f in
      rw (f, other, find_conn-put_conn r p q e) refl
]

pub find_conn-put_conn_other :
    (r : List Packet) (p q : Packet)
    → same_conn p q ≡ false
    → find_conn (put_conn r p) q ≡ find_conn r q
unfolding find_conn put_conn
find_conn-put_conn_other [] p q h = rw h refl
find_conn-put_conn_other (x ∷ r) p q h = elim (Bool-cases (same_conn x p)) [
  | inl t ↦
      let other : same_conn x q ≡ false = same_conn_left x p q (same_conn-Peers x p t) ∙ h in
      rw (t, h, other) refl
  | inr f ↦ rw (f, find_conn-put_conn_other r p q h) refl
]

pub find_conn-drop_conn :
    (r : List Packet) (p q : Packet) → Unique r → Peers p q → find_conn (drop_conn r p) q ≡ none
unfolding find_conn drop_conn
find_conn-drop_conn [] p q u e = refl
find_conn-drop_conn (x ∷ r) p q u e = elim (Bool-cases (same_conn x p)) [
  | inl t ↦
      rw t
        (sym (find_conn_right r p q e) ∙ sym (find_conn_right r x p (same_conn-Peers x p t)) ∙ u.0)
  | inr f ↦
      let other : same_conn x q ≡ false = sym (same_conn_right x p q e) ∙ f in
      rw (f, other, find_conn-drop_conn r p q u.1 e) refl
]

pub find_conn-drop_conn_other :
    (r : List Packet) (p q : Packet)
    → same_conn p q ≡ false
    → find_conn (drop_conn r p) q ≡ find_conn r q
unfolding find_conn drop_conn
find_conn-drop_conn_other [] p q h = refl
find_conn-drop_conn_other (x ∷ r) p q h = elim (Bool-cases (same_conn x p)) [
  | inl t ↦
      let other : same_conn x q ≡ false = same_conn_left x p q (same_conn-Peers x p t) ∙ h in
      rw (t, other) refl
  | inr f ↦ rw (f, find_conn-drop_conn_other r p q h) refl
]

pub find_conn-append :
    (r : List Packet) (p q : Packet)
    → find_conn r q ≡ none
    → Peers p q
    → find_conn (r ++ p ∷ []) q ≡ some p
unfolding find_conn
find_conn-append [] p q h e = rw (sym (same_conn_right p p q e), same_conn_refl p) refl
find_conn-append (x ∷ r) p q h e = elim (Bool-cases (same_conn x q)) [
  | inl t ↦ let impossible : some x ≡ none = rw t at h in cc
  | inr f ↦ rw (f, find_conn-append r p q (rw f at h) e) refl
]

pub find_conn-append_other :
    (r : List Packet) (p q : Packet)
    → same_conn p q ≡ false
    → find_conn (r ++ p ∷ []) q ≡ find_conn r q
unfolding find_conn
find_conn-append_other [] p q h = rw h refl
find_conn-append_other (x ∷ r) p q h = rw (find_conn-append_other r p q h) refl

same_conn_sym : (p q : Packet) → same_conn p q ≡ false → same_conn q p ≡ false
same_conn_sym p q f = elim (Bool-cases (same_conn q p)) [
  | inl t ↦
      let e : Peers q p = same_conn-Peers q p t in
      let impossible : true ≡ false = sym (same_conn_refl p) ∙ sym (same_conn_right p q p e) ∙ f in
      cc
  | inr g ↦ g
]

pub put_conn-Unique : (r : List Packet) (p : Packet) → Unique r → Unique (put_conn r p)
unfolding put_conn find_conn
put_conn-Unique [] p u = (refl, tt)
put_conn-Unique (x ∷ r) p u = elim (Bool-cases (same_conn x p)) [
  | inl t ↦ rw t ((sym (find_conn_right r x p (same_conn-Peers x p t)) ∙ u.0, u.1))
  | inr f ↦
      rw f ((find_conn-put_conn_other r p x (same_conn_sym x p f) ∙ u.0, put_conn-Unique r p u.1))
]

pub drop_conn-Unique : (r : List Packet) (p : Packet) → Unique r → Unique (drop_conn r p)
unfolding drop_conn
drop_conn-Unique [] p u = tt
drop_conn-Unique (x ∷ r) p u = elim (Bool-cases (same_conn x p)) [
  | inl t ↦ rw t u.1
  | inr f ↦
      rw f ((find_conn-drop_conn_other r p x (same_conn_sym x p f) ∙ u.0, drop_conn-Unique r p u.1))
]

pub append-Unique :
    (r : List Packet) (p : Packet) → Unique r → find_conn r p ≡ none → Unique (r ++ p ∷ [])
unfolding find_conn
append-Unique [] p u h = (refl, tt)
append-Unique (x ∷ r) p u h = elim (Bool-cases (same_conn x p)) [
  | inl t ↦ let impossible : some x ≡ none = rw t at h in cc
  | inr f ↦
      let other = same_conn_sym x p f in
      (find_conn-append_other r p x other ∙ u.0, append-Unique r p u.1 (rw f at h))
]

pub find_conn-Peers :
    (r : List Packet) (packet q : Packet) → find_conn r packet ≡ some q → Peers q packet
unfolding find_conn
find_conn-Peers [] packet q e = elim (absurd e) [ ]
  where
    absurd : none ≡ some q → ⊥
    absurd e = cc
find_conn-Peers (x ∷ r) packet q e = elim (Bool-cases (same_conn x packet)) [
  | inl t ↦
      let same : some x ≡ some q = rw t at e in
      subst (λ (p : Packet). Peers p packet) (cc) (same_conn-Peers x packet t)
  | inr f ↦ find_conn-Peers r packet q (rw f at e)
]
