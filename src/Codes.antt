-- ===== src/Codes.antt =====
-- src/sip.c: the names of methods and responses. Texts are the bytes before their terminator.
mod RoundTrip
mod Tests
use Prim.Native.Char.{code}
use Prim.Native.String
use Prim.Native.String.{String}
use sngrep.Common.{ℕ, Option, none, some, List, [], ◌∷◌, ◌==◌, if◌then◌else◌}
use sngrep.Common.Int.{ℤ, pos}
use sngrep.Hash.{key_eq}

-- The bytes of an ASCII text.
abbrev pub codes : String → List ℕ
codes String.[] = []
codes (String.◌∷◌ c s) = code c ∷ codes s

-- `sip_codes`, to its sentinel.
abbrev pub sip_codes : List (ℕ × List ℕ)
sip_codes =
    (1, codes "REGISTER")
    ∷ (2, codes "INVITE")
    ∷ (3, codes "SUBSCRIBE")
    ∷ (4, codes "NOTIFY")
    ∷ (5, codes "OPTIONS")
    ∷ (6, codes "PUBLISH")
    ∷ (10, codes "KDMQ")
    ∷ (11, codes "MESSAGE")
    ∷ (12, codes "CANCEL")
    ∷ (13, codes "BYE")
    ∷ (14, codes "ACK")
    ∷ (15, codes "PRACK")
    ∷ (7, codes "INFO")
    ∷ (8, codes "REFER")
    ∷ (9, codes "UPDATE")
    ∷ (100, codes "100 Trying")
    ∷ (180, codes "180 Ringing")
    ∷ (181, codes "181 Call is Being Forwarded")
    ∷ (182, codes "182 Queued")
    ∷ (183, codes "183 Session Progress")
    ∷ (199, codes "199 Early Dialog Terminated")
    ∷ (200, codes "200 OK")
    ∷ (202, codes "202 Accepted")
    ∷ (204, codes "204 No Notification")
    ∷ (300, codes "300 Multiple Choices")
    ∷ (301, codes "301 Moved Permanently")
    ∷ (302, codes "302 Moved Temporarily")
    ∷ (305, codes "305 Use Proxy")
    ∷ (380, codes "380 Alternative Service")
    ∷ (400, codes "400 Bad Request")
    ∷ (401, codes "401 Unauthorized")
    ∷ (402, codes "402 Payment Required")
    ∷ (403, codes "403 Forbidden")
    ∷ (404, codes "404 Not Found")
    ∷ (405, codes "405 Method Not Allowed")
    ∷ (406, codes "406 Not Acceptable")
    ∷ (407, codes "407 Proxy Authentication Required")
    ∷ (408, codes "408 Request Timeout")
    ∷ (409, codes "409 Conflict")
    ∷ (410, codes "410 Gone")
    ∷ (411, codes "411 Length Required")
    ∷ (412, codes "412 Conditional Request Failed")
    ∷ (413, codes "413 Request Entity Too Large")
    ∷ (414, codes "414 Request-URI Too Long")
    ∷ (415, codes "415 Unsupported Media Type")
    ∷ (416, codes "416 Unsupported URI Scheme")
    ∷ (417, codes "417 Unknown Resource-Priority")
    ∷ (420, codes "420 Bad Extension")
    ∷ (421, codes "421 Extension Required")
    ∷ (422, codes "422 Session Interval Too Small")
    ∷ (423, codes "423 Interval Too Brief")
    ∷ (424, codes "424 Bad Location Information")
    ∷ (428, codes "428 Use Identity Header")
    ∷ (429, codes "429 Provide Referrer Identity")
    ∷ (430, codes "430 Flow Failed")
    ∷ (433, codes "433 Anonymity Disallowed")
    ∷ (436, codes "436 Bad Identity-Info")
    ∷ (437, codes "437 Unsupported Certificate")
    ∷ (438, codes "438 Invalid Identity Header")
    ∷ (439, codes "439 First Hop Lacks Outbound Support")
    ∷ (470, codes "470 Consent Needed")
    ∷ (480, codes "480 Temporarily Unavailable")
    ∷ (481, codes "481 Call/Transaction Does Not Exist")
    ∷ (482, codes "482 Loop Detected.")
    ∷ (483, codes "483 Too Many Hops")
    ∷ (484, codes "484 Address Incomplete")
    ∷ (485, codes "485 Ambiguous")
    ∷ (486, codes "486 Busy Here")
    ∷ (487, codes "487 Request Terminated")
    ∷ (488, codes "488 Not Acceptable Here")
    ∷ (489, codes "489 Bad Event")
    ∷ (491, codes "491 Request Pending")
    ∷ (493, codes "493 Undecipherable")
    ∷ (494, codes "494 Security Agreement Required")
    ∷ (500, codes "500 Server Internal Error")
    ∷ (501, codes "501 Not Implemented")
    ∷ (502, codes "502 Bad Gateway")
    ∷ (503, codes "503 Service Unavailable")
    ∷ (504, codes "504 Server Time-out")
    ∷ (505, codes "505 Version Not Supported")
    ∷ (513, codes "513 Message Too Large")
    ∷ (580, codes "580 Precondition Failure")
    ∷ (600, codes "600 Busy Everywhere")
    ∷ (603, codes "603 Decline")
    ∷ (604, codes "604 Does Not Exist Anywhere")
    ∷ (606, codes "606 Not Acceptable")
    ∷ []

-- The loops over a table that ends with a sentinel; NULL if there is no such row.
unfoldable pub text_of : List (ℕ × List ℕ) → ℕ → Option (List ℕ)
text_of [] k = none
text_of ((id, text) ∷ rows) k = if k == id then some text else text_of rows k

unfoldable pub id_of : List (ℕ × List ℕ) → List ℕ → Option ℕ
id_of [] t = none
id_of ((id, text) ∷ rows) t = if key_eq t text then some id else id_of rows t

-- `sip_method_str`
unfoldable pub sip_method_str : ℕ → Option (List ℕ)
unfolding text_of
sip_method_str = text_of sip_codes

-- `sip_method_from_str`, with `atoi` of the C library.
unfoldable pub sip_method_from_str : (List ℕ → ℤ) → List ℕ → ℤ
unfolding id_of
sip_method_from_str atoi method = elim (id_of sip_codes method) [
  | none ↦ atoi method
  | some k ↦ pos k
]

-- `sip_transport_str`
unfoldable pub sip_transport_str : ℕ → List ℕ
sip_transport_str transport =
    if transport == 0
    then codes "UDP"
    else (if transport == 1
        then codes "TCP"
        else (if transport == 2
            then codes "TLS"
            else (if transport == 3
                then codes "WS"
                else (if transport == 4 then codes "WSS" else []))))
