-- ===== src/Lib.antt =====
-- Verification library of sngrep, the terminal viewer of SIP message flows.
--
-- A captured packet goes to `sip_check_packet` (src/sip.c), which finds or makes the call of its
-- Call-Id, adds the message to the call (src/sip_call.c) and keeps the list of calls and its index by
-- Call-Id. RTP packets go to `rtp_check_packet` (src/rtp.c), which finds their stream among those of
-- the calls. The interface shows the list, and groups of calls (src/group.c) as one flow. All of them
-- keep their items in the vectors of src/vector.c; the index is the table of src/hash.c.
--
-- - Common: names of the libraries, tests on numbers, lists over the native numbers, C's `int` (Int).
--   A C function that may fault returns an Option: `none` is undefined behaviour or fuel that ran out.
-- - Vector: src/vector.c. A vector is its struct with the block of memory as a list of slots; a slot
--   without a value was never written. Pointers are numbers, NULL is 0. `Vector.f` is `vector_f`.
--   Iter and Copy are iterators and copies. Holds relates a vector to the list of its items; Grow,
--   Append, Insert, Remove, Clear, Walk, Back and Build say what the operations do to it. Settle, Sorting,
--   Once and Order are about sorters that move the new item back to its place.
-- - Hash: src/hash.c. `Hash.f` is `htable_f`. View relates a table to the contents of each key, Bound
--   is about the hash.
-- - Address, Util, Msg: what the others use of src/address.c, src/util.c and src/sip_msg.c.
-- - Call: src/sip_call.c. State is `call_update_state`, Transitions its relation, History runs of it,
--   Compare and Preorder `call_attr_compare`, Retrans `call_msg_retrans_check`.
-- - Group: src/group.c, with the merge of messages in Merge and the walk along it in Step.
-- - CallList: src/sip.c. `Sip` is the global `calls` with the memory of calls and messages.
--   `sip_check_packet` is cut at its comments: `wanted`, `add_call`, `add_message`, `list_call`.
--   Invariant says that list and index agree; Check, Rotate, NewCall, Message, Sort and Clear are
--   about the operations, Packets about `sip_check_packet` as a whole.
-- - Rtp: src/rtp.c. Data tests payloads, Packet is the RTP branch of `rtp_check_packet`, Search is
--   about the searches for a stream.
-- - Packet: src/packet.c, a packet with its frames and payload.
-- - Capture: src/capture.c, from a captured frame to the packet with its payload. Frame is
--   `parse_packet` up to the packet that it parses; Ip is `capture_packet_reasm_ip`, with its loops
--   over headers in Ip.Loops and the assembly of fragments in Ip.Assembly; Tcp is
--   `capture_packet_reasm_tcp`, Validate the `sip_validate_packet` of src/sip.c that it calls, Ws is
--   `capture_ws_check_packet`. Flow, Isolated, WsFrame and Udp are about them, on the lemmas of Conn,
--   Verdict, Kept, Held and Stream; Sent is a packet byte for byte.
-- - Media: src/media.c. Sdp is `sip_parse_msg_media` of src/sip.c; Lines, on Streams and Ready, is about the
--   streams that the call gets, Call about what the call list sees of the parsing. What lies in the
--   uninitialised `dst` is a text of its own.
-- - Save: the loops of `save_to_file` in src/curses/ui_save.c, with the sorter of src/capture.c; Order is
--   about what is saved.
-- - Codes: the names of SIP codes in src/sip.c, with their round trip.
-- - Keys: src/keybinding.c. Names has keys and actions by name, Unbind and Walk what holds of the
--   table.
--
-- Each module Tests applies theorems to concrete data.
--
-- Memory that is allocated is an argument, the address that malloc gave; malloc does not fail. A call
-- through a function pointer is an argument too: which sorter runs is decided by its address. Numbers
-- of 32 and 64 bits are reduced where the code can exceed them; counters and indices that are an `int`
-- fault beyond INT_MAX, and Holds asks for fewer than 2^31 items. A call that the list's destroyer is
-- handed is recorded in `destroyed`, and its memory may be given to a new call.
--
-- Loops over an iterator run on fuel, one round more than the vector has items, which is enough for
-- the loops over `vector_iterator_next` and for `from_last`. `get_next_msg` of Group needs one round
-- more than the group has messages; nothing is said of how much `get_prev_msg` needs. The loops of
-- `capture_packet_reasm_ip` over headers have a result of their own, `starved`, for fuel that ran out;
-- 1100 rounds are enough for headers of at least 20 bytes in a buffer of MAX_CAPTURE_LEN.
--
-- Parameters: regular expressions (a packet comes with what they matched; in Capture they are functions
-- of the payload, Regex), `inet_ntop`, sscanf, `strcasecmp`, `atoi`, `toupper`, the key codes and names
-- of curses, the time of the day, the text of an attribute and the filter of the user. The call list
-- takes the parsing of media as a parameter that may fault, as Media.Call gives it. Not modelled: IPv6, the threads and
-- devices of the capture, TLS, HEP, options, settings, filters, the rest of the interface, and the RTCP
-- branch of `rtp_check_packet`.
pub mod Common
pub mod Vector
pub mod Hash
pub mod Codes
pub mod Keys
pub mod Rtp
pub mod Packet
pub mod Capture
pub mod Media
pub mod Save
pub mod Util
pub mod Address
pub mod Msg
pub mod Call
pub mod Group
pub mod CallList
