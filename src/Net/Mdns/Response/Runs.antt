-- ===== src/Net/Mdns/Response/Runs.antt =====
-- src/net/Mdns.cpp: the answer of a receiver, with its PTR, SRV, TXT and A records, and a truncated one.
use opendisplay_win.Common.{
  some, [], ◌∷◌, ◌++◌, Bytes, codes, length, take, equal, strip, cut_at, ◌≡◌, refl,
}
use opendisplay_win.Net.Mdns.{
  put_uint16, append_labels, append_name, service, follow, name_move, walk, read_name,
}
use opendisplay_win.Net.Mdns.Response.{
  change, put_address, find_address, with_addresses, read_uint16, skip_questions, read_entries,
  read_ptr, read_srv, id_in, read_txt, read_a, read_record, read_records, parse_response,
}
use opendisplay_win.Net.Mdns.Response.Total.{parse_response-IsSome, IsSome}

abbrev plain : Bytes → Bytes
plain b = b

record_bytes : Bytes → Bytes → Bytes → Bytes
record_bytes name type data_part =
    append_name name
    ++ (type ++ (0 ∷ 1 ∷ 0 ∷ 0 ∷ 0 ∷ 10 ∷ (put_uint16 (length data_part) ++ data_part)))

abbrev ipad : Bytes
ipad = codes "iPad._opensidecar._tcp.local"

abbrev ipad_host : Bytes
ipad_host = codes "iPad-Pro.local"

good_response : Bytes
unfolding record_bytes
good_response =
    (0 ∷ 0 ∷ 0x84 ∷ 0 ∷ 0 ∷ 0 ∷ 0 ∷ 4 ∷ 0 ∷ 0 ∷ 0 ∷ 0 ∷ [])
    ++ (record_bytes service (0 ∷ 12 ∷ []) (append_name ipad)
        ++ (record_bytes ipad (0 ∷ 33 ∷ [])
              (0 ∷ 0 ∷ 0 ∷ 0 ∷ (put_uint16 9000 ++ append_name ipad_host))
            ++ (record_bytes ipad (0 ∷ 16 ∷ []) (6 ∷ codes "id=5C2")
                ++ record_bytes ipad_host (0 ∷ 1 ∷ []) (192 ∷ 0 ∷ 2 ∷ 42 ∷ []))))

parse_response-IsSome_example : IsSome (parse_response plain (take 40 good_response) [])
parse_response-IsSome_example = parse_response-IsSome plain (take 40 good_response) []

good_response_run :
    parse_response plain good_response []
    ≡ some (
        (
          ipad,
          record {
            instance_name = codes "iPad";
            host = ipad_host;
            address = 192 ∷ 0 ∷ 2 ∷ 42 ∷ [];
            port = 9000;
            id = codes "5C2";
          },
        )
        ∷ [])
unfolding good_response record_bytes append_name append_labels follow name_move walk read_name
    change put_address find_address with_addresses read_uint16 skip_questions read_entries read_ptr
    read_srv id_in read_txt read_a read_record read_records parse_response equal strip cut_at
good_response_run = refl
