-- ===== src/Media.antt =====
-- src/media.c: a media description of SDP, with its formats. A vector of formats without a sorter
-- that is only appended to and walked is the list of its items.
pub mod Sdp
mod Streams
mod Ready
pub mod Lines
mod Call
mod Tests
use sngrep.Common.{ℕ, ◌-◌, Option, none, some, List, [], ◌∷◌, ◌++◌, ◌==◌, if◌then◌else◌, take}
use sngrep.Vector.{Ptr}
use sngrep.Address.{Address}
use sngrep.Rtp.{rtp_get_standard_format}
use sngrep.Codes.{codes}

-- `sdp_media_fmt_t`
pub record Format : Type 0 where
  pub id : ℕ
  pub format : List ℕ

-- `sdp_media_t`
pub record Media : Type 0 where
  pub address : Address
  pub type : List ℕ
  pub fmtcode : ℕ
  pub formats : List Format
  pub msg : Ptr

-- `MEDIATYPELEN`
abbrev pub mediatypelen : ℕ
mediatypelen = 15

-- `media_create`; the fields that malloc leaves are those of `old`.
unfoldable pub media_create : Media → Ptr → Media
media_create old msg = record old { msg = msg; formats = [] }

-- `media_set_type`
unfoldable pub media_set_type : Media → List ℕ → Media
media_set_type media type = record media { type = take (mediatypelen - 1) type }

-- `media_set_address`
unfoldable pub media_set_address : Media → Address → Media
media_set_address media addr = record media { address = addr }

-- `media_set_prefered_format`
unfoldable pub media_set_prefered_format : Media → ℕ → Media
media_set_prefered_format media code = record media { fmtcode = code }

-- `media_add_format`
unfoldable pub media_add_format : Media → ℕ → List ℕ → Media
media_add_format media code format = record media {
  formats = media.formats ++ record { id = code; format = format } ∷ [];
}

-- `media_get_format`
unfoldable pub find_format : List Format → ℕ → List ℕ
find_format [] code = codes "Unassigned"
find_format (f ∷ fs) code =
    let rest = find_format fs code in if f.id == code then f.format else rest

unfoldable pub media_get_format : Media → ℕ → List ℕ
unfolding find_format
media_get_format media code = find_format media.formats code

-- `media_get_prefered_format`
unfoldable pub media_get_prefered_format : Media → List ℕ
unfolding media_get_format rtp_get_standard_format
media_get_prefered_format media = elim (rtp_get_standard_format media.fmtcode) [
  | none ↦ media_get_format media media.fmtcode
  | some format ↦ format
]

-- `media_get_format_code`
unfoldable pub media_get_format_code : Media → ℕ
media_get_format_code media = media.fmtcode
