-- ===== src/Rpc/Marshall/Tests.antt =====
-- Values written and read back, and witnesses.
use cse_2014_undergrad.Prelude.{ℕ, ◌<◌, ◌^◌, true, List, [], ◌∷◌, ◌≡◌, refl, arith}
use cse_2014_undergrad.Rpc.Marshall.{
  Marshall, Unmarshall, marshall, put_u32, get_u32, put_u64, put_string, get_string, rawbytes,
}
use cse_2014_undergrad.Rpc.Marshall.Codec.{Faces}
use cse_2014_undergrad.Rpc.Marshall.Words.{u32_codec}
use cse_2014_undergrad.Rpc.Marshall.Text.{string_codec, string-back}
use cse_2014_undergrad.Rpc.Marshall.Maps.{put_map, get_map, map-back}
use cse_2014_undergrad.Rpc.Marshall.Vectors.{
  put_pair, put_vector, get_vector, valid_vector, vector-back,
}
use cse_2014_undergrad.Rpc.Marshall.Headers.{
  ReqHeader, pack_req_header, unpack_req_header, req_header_round_trip, ReplyHeader,
}

abbrev blank : Marshall
blank = marshall (λ i. 0)

-- A packet that holds what a marshaller wrote, with the reader at `start`.
abbrev packet : Marshall → ℕ → Unmarshall
packet m start = record { buf = m.buf; sz = m.ind; ind = start; ok = true }

abbrev words : List ℕ
words = 7 ∷ 0xfffffffe ∷ []

words_read : (get_vector (5 ∷ []) (packet (put_vector blank words) 24)).0 ≡ 5 ∷ words
unfolding put_vector get_vector put_u32 get_u32
words_read = refl

vector-Faces : Faces (packet (put_vector blank words) 24) blank (put_vector blank words)
unfolding put_vector put_u32
vector-Faces = record {
  fine = refl;
  at = refl;
  room = omega arith;
  fits = omega arith;
  same = λ i l h. refl;
}

vector-back_example : get_vector (5 ∷ []) (packet (put_vector blank words) 24) ≡ (
  5 ∷ words,
  record (packet (put_vector blank words) 24) { ind = Marshall.ind (put_vector blank words) },
)
unfolding valid_vector
vector-back_example =
    vector-back (5 ∷ []) blank (packet (put_vector blank words) 24) words refl vector-Faces

-- Two entries, in the order of their keys
abbrev ages : List (ℕ × ℕ)
ages = (3, 70) ∷ (9, 2 ^ 31) ∷ []

ages-Faces : Faces (packet (put_map blank ages) 24) blank (put_map blank ages)
unfolding put_map put_vector put_u32 put_pair
ages-Faces = record {
  fine = refl;
  at = refl;
  room = omega arith;
  fits = omega arith;
  same = λ i l h. refl;
}

map-back_example :
    get_map (packet (put_map blank ages) 24)
    ≡ (ages, record (packet (put_map blank ages) 24) { ind = Marshall.ind (put_map blank ages) })
unfolding valid_vector
map-back_example =
    map-back blank (packet (put_map blank ages) 24) ages refl ((omega arith, tt), (tt, tt))
      ages-Faces

string-Faces :
    (s : List ℕ)
    → Marshall.ind (put_string blank s) < 2 ^ 32
    → Faces (packet (put_string blank s) 24) blank (put_string blank s)
string-Faces s h = record {
  fine = refl;
  at = refl;
  room = omega arith;
  fits = h;
  same = λ i l h. refl;
}

string-back_example : get_string (1 ∷ []) (packet (put_string blank (104 ∷ 105 ∷ [])) 24) ≡ (
  104 ∷ 105 ∷ [],
  record (packet (put_string blank (104 ∷ 105 ∷ [])) 24) {
    ind = Marshall.ind (put_string blank (104 ∷ 105 ∷ []));
  },
)
unfolding put_string put_u32 rawbytes
string-back_example =
    string-back (1 ∷ []) blank (packet (put_string blank (104 ∷ 105 ∷ [])) 24) (104 ∷ 105 ∷ [])
      (string-Faces (104 ∷ 105 ∷ []) (omega arith))

u64-Faces : Faces (packet (put_u64 blank 0x1_0000_0002) 24) blank (put_u64 blank 0x1_0000_0002)
unfolding put_u64 put_u32
u64-Faces = record {
  fine = refl;
  at = refl;
  room = omega arith;
  fits = omega arith;
  same = λ i l h. refl;
}

-- Twelve bytes, of which eight have been read.
abbrev short_packet : Unmarshall
short_packet = record { buf = λ i. i; sz = 12; ind = 8; ok = true }

abbrev header : ReqHeader
header = record { xid = 3; proc = 0x7001; clt_nonce = 0x89abcdef; srv_nonce = 5; xid_rep = 2 }

req_header_round_trip_example :
    (unpack_req_header (packet (pack_req_header blank header) 0)
      ≡ (header, packet (pack_req_header blank header) 24))
    × (Marshall.buf (pack_req_header blank header) 30 ≡ blank.buf 30)
    × (Marshall.ind (pack_req_header blank header) ≡ blank.ind)
unfolding pack_req_header
req_header_round_trip_example =
    req_header_round_trip blank header (packet (pack_req_header blank header) 0) 30 refl refl refl
      refl refl refl (omega arith) (omega arith) (λ i h. refl) (omega arith)

abbrev reply : ReplyHeader
reply = record { xid = 3; ret = 0xfffffffa }
