-- ===== src/Rtp/Packet.antt =====
-- src/rtp.c: what `rtp_check_packet` does with an RTP packet.
use sngrep.Common.{
  ℕ, Bool, true, false, Option, some, List, ◌==◌, ◌&&◌, not, if◌then◌else◌, ◌>>=◌, length,
}
use sngrep.Common.Int.{ℤ}
use sngrep.Vector.{Ptr, null, Vector}
use sngrep.Address.{Address, addressport_equals}
use sngrep.Util.{Timeval}
use sngrep.Call.{Call, call_add_stream}
use sngrep.CallList.{update}
use sngrep.Rtp.{
  Stream, packet_rtp, stream_create, stream_complete, stream_set_format, stream_add_packet,
  stream_is_complete, rtp_find_call_stream, rtp_find_call_exact_stream, rtp_find_stream_format,
}
use sngrep.Rtp.Data.{byte, rtp_payload_type}

-- The memory that a packet changes.
pub record Memory : Type 0 where
  pub calls : Ptr → Call
  pub streams : Ptr → Stream

-- A captured packet, and the time of its handling.
pub record Packet : Type 0 where
  pub src : Address
  pub dst : Address
  pub payload : List ℕ
  pub time : Timeval
  pub now : ℤ

-- `owner m` is `m->msg->call` of a media; `run` runs the sorter of a vector.
module _ (run : Ptr → Vector → Ptr → Option Vector) (owner : Ptr → Ptr) where
  -- A new stream at `p`, with its addresses and format, that its call lists.
  unfoldable pub new_stream : Memory → Ptr → Ptr → Address → Address → ℕ → Option Memory
  unfolding stream_create stream_complete stream_set_format call_add_stream
  new_stream m p media src dst format =
      let stream =
        stream_set_format (stream_complete (stream_create media dst packet_rtp) src) format in
      call_add_stream run (m.calls (owner media)) p >>= λ c.
      some (record { calls = update m.calls (owner media) c; streams = update m.streams p stream })

  -- A stream was found, but with another format.
  unfoldable pub for_format : Memory → Packet → Ptr → Ptr → ℕ → Option (Memory × Ptr)
  unfolding stream_is_complete new_stream
  for_format m packet stream p format =
      if stream_is_complete (m.streams stream) && not ((m.streams stream).word == format)
      then (new_stream m p (m.streams stream).media packet.src packet.dst format >>= λ m'.
          some (m', p))
      else some (m, stream)

  -- Whether there is already a stream in the opposite direction.
  unfoldable pub has_reverse : Memory → Ptr → Option Bool
  unfolding rtp_find_call_stream rtp_find_call_exact_stream addressport_equals
  has_reverse m stream =
      let s = m.streams stream in
      let call = m.calls (owner s.media) in
      rtp_find_call_stream m.streams call s.dst s.src >>= λ reverse.
      if reverse == null
      then some false
      else (if not ((m.streams reverse).src.port == 0)
            && not (addressport_equals s.src (m.streams reverse).src)
          then (rtp_find_call_exact_stream m.streams call s.dst s.src >>= λ r.
              some (not (r == null)))
          else some true)

  -- The first packet of a stream gives it its source, and may add the stream back, at `p`.
  unfoldable pub first_packet : Memory → Packet → Ptr → Ptr → ℕ → Option Memory
  unfolding stream_is_complete stream_complete stream_set_format has_reverse new_stream
  first_packet m packet stream p format =
      if stream_is_complete (m.streams stream)
      then some m
      else (let s = stream_set_format (stream_complete (m.streams stream) packet.src) format in
          let m1 = record m { streams = update m.streams stream s } in
          has_reverse m1 stream >>= λ there.
          if there then some m1 else new_stream m1 p s.media s.dst s.src format)

  -- The branch of `rtp_check_packet` for RTP: the memory and the stream, NULL if there is none.
  -- `p` and `q` are the memory that new streams are given.
  unfoldable pub rtp_check_packet_rtp : Vector → Memory → Packet → Ptr → Ptr → Option (Memory × Ptr)
  unfolding byte rtp_find_stream_format for_format first_packet stream_add_packet
  rtp_check_packet_rtp list m packet p q = byte packet.payload 1 >>= λ b1.
      let format = rtp_payload_type b1 in
      rtp_find_stream_format m.streams list m.calls packet.src packet.dst format >>= λ found.
      if found == null
      then some (m, null)
      else (for_format m packet found p format >>= λ (m1, stream).
          first_packet m1 packet stream q format >>= λ m2.
          let counted =
            stream_add_packet packet.now (m2.streams stream) packet.time (length packet.payload) in
          some (record m2 { streams = update m2.streams stream counted }, stream))
