-- ===== src/Wire.antt =====
-- src/srtla/common.h and common.c: packet types, byte order, and the tests that tell the packets
-- apart. A packet is the list of the bytes that were received, so the `n` or `len` that the C
-- functions take beside the buffer is its length.
pub mod Codec
use pyle_irl.Base.{
  ℕ, ◌+◌, ◌*◌, ◌/◌, ◌%◌, ◌^◌, Bool, true, false, ◌&&◌, Option, none, some, List, [], ◌∷◌, length,
  ◌==◌, if◌then◌else◌,
}

abbrev pub Bytes : Type 0
Bytes = List ℕ

abbrev pub mtu : ℕ
mtu = 1500

abbrev pub srt_type_handshake : ℕ
srt_type_handshake = 0x8000

abbrev pub srt_type_ack : ℕ
srt_type_ack = 0x8002

abbrev pub srt_type_nak : ℕ
srt_type_nak = 0x8003

abbrev pub srt_type_shutdown : ℕ
srt_type_shutdown = 0x8005

abbrev pub srtla_type_keepalive : ℕ
srtla_type_keepalive = 0x9000

abbrev pub srtla_type_ack : ℕ
srtla_type_ack = 0x9100

abbrev pub srtla_type_reg1 : ℕ
srtla_type_reg1 = 0x9200

abbrev pub srtla_type_reg2 : ℕ
srtla_type_reg2 = 0x9201

abbrev pub srtla_type_reg3 : ℕ
srtla_type_reg3 = 0x9202

abbrev pub srtla_type_reg_err : ℕ
srtla_type_reg_err = 0x9210

abbrev pub srtla_type_reg_ngp : ℕ
srtla_type_reg_ngp = 0x9211

abbrev pub srt_min_len : ℕ
srt_min_len = 16

abbrev pub srtla_id_len : ℕ
srtla_id_len = 256

abbrev pub srtla_type_reg1_len : ℕ
srtla_type_reg1_len = 2 + srtla_id_len

abbrev pub srtla_type_reg2_len : ℕ
srtla_type_reg2_len = 2 + srtla_id_len

abbrev pub srtla_type_reg3_len : ℕ
srtla_type_reg3_len = 2

-- htobe16 and htobe32: the bytes in which the value lies in memory.
abbrev pub be16 : ℕ → Bytes
be16 x = (x / 256 % 256) ∷ (x % 256) ∷ []

abbrev pub be32 : ℕ → Bytes
be32 x = (x / 2 ^ 24 % 256) ∷ (x / 2 ^ 16 % 256) ∷ (x / 256 % 256) ∷ (x % 256) ∷ []

-- be32toh of four bytes.
abbrev pub from_be32 : ℕ → ℕ → ℕ → ℕ → ℕ
from_be32 a b c d = a * 2 ^ 24 + b * 2 ^ 16 + c * 256 + d

-- `strcmp(a, b) == 0`, and `memcmp` of two buffers of one length.
unfoldable pub same_text : Bytes → Bytes → Bool
same_text [] [] = true
same_text (a ∷ xs) (b ∷ ys) = let rest = same_text xs ys in a == b && rest
same_text _ _ = false

-- The first four bytes as a word; what lies behind the end of the memory is read as 0.
abbrev pub word_at : Bytes → ℕ
word_at (a ∷ b ∷ c ∷ d ∷ rest) = from_be32 a b c d % 2 ^ 32
word_at _ = 0

-- The whole words of a packet.
abbrev pub words_of : Bytes → List ℕ
words_of (a ∷ b ∷ c ∷ d ∷ rest) = (from_be32 a b c d % 2 ^ 32) ∷ words_of rest
words_of _ = []

-- The sequence number of a data packet; `none` is the -1 of the source.
unfoldable pub get_srt_sn : Bytes → Option ℕ
get_srt_sn (a ∷ b ∷ c ∷ d ∷ rest) =
    let sn = from_be32 a b c d in if sn / 2 ^ 31 % 2 == 0 then some sn else none
get_srt_sn _ = none

unfoldable pub get_srt_type : Bytes → ℕ
get_srt_type (a ∷ b ∷ rest) = a * 256 + b
get_srt_type _ = 0

unfoldable pub is_srt_ack : Bytes → Bool
is_srt_ack pkt = get_srt_type pkt == srt_type_ack

unfoldable pub is_srt_shutdown : Bytes → Bool
is_srt_shutdown pkt = get_srt_type pkt == srt_type_shutdown

unfoldable pub is_srtla_keepalive : Bytes → Bool
is_srtla_keepalive pkt = get_srt_type pkt == srtla_type_keepalive

unfoldable pub is_srtla_reg1 : Bytes → Bool
is_srtla_reg1 pkt =
    if length pkt == srtla_type_reg1_len then get_srt_type pkt == srtla_type_reg1 else false

unfoldable pub is_srtla_reg2 : Bytes → Bool
is_srtla_reg2 pkt =
    if length pkt == srtla_type_reg2_len then get_srt_type pkt == srtla_type_reg2 else false

unfoldable pub is_srtla_reg3 : Bytes → Bool
is_srtla_reg3 pkt =
    if length pkt == srtla_type_reg3_len then get_srt_type pkt == srtla_type_reg3 else false
