-- ===== src/CallList/Invariant.antt =====
-- src/sip.c: the list of calls and its index by Call-Id agree.
use sngrep.Common.{ℕ, ◌≤◌, ◌≡◌, List, [], ◌&&◌, length}
use sngrep.Vector.{Ptr}
use sngrep.Vector.Holds.{Holds}
use sngrep.Vector.Remove.{has}
use sngrep.Vector.Sorting.{Distinct}
use sngrep.Hash.{key_eq}
use sngrep.Hash.View.{IsTable, view}
use sngrep.CallList.{Sip, list_sorter}

-- The list holds `xs`, each call once, and the index finds a call under its Call-Id just if it is
-- listed. No two listed calls have the same Call-Id. The list of active calls is empty.
pub record IsValid (s : Sip) (xs : List Ptr) : Type 0 where
  pub listed : Holds s.list xs
  pub distinct : Distinct xs
  pub sorter : s.list.sorter ≡ list_sorter
  pub none_active : Holds s.active []
  pub table : IsTable s.callids
  pub indexed :
      (k : List ℕ) (p : Ptr) → has p (view s.callids k) ≡ (has p xs && key_eq (s.calls p).callid k)
  pub single : (k : List ℕ) → length (view s.callids k) ≤ 1
