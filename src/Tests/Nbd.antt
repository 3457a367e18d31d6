-- ===== src/Tests/Nbd.antt =====
-- Runs of nbd/nbd.py's theorems at concrete inputs: a server over a device in memory.
use ps3_memorycard_adapter.Prelude.{
  splice, ◌≡◌, refl, ap, true, false, none, some, List, [], ◌∷◌, arith, length, take, drop, slice,
  Bytes, ok, no_fuel,
}
use ps3_memorycard_adapter.Struct.{big}
use ps3_memorycard_adapter.Nbd.Wire.{Device, World, recvall}
use ps3_memorycard_adapter.Nbd.Request.{
  nbd_request_magic, Request, magic_of, request_of, encode, Fits,
}
use ps3_memorycard_adapter.Nbd.Handle.{serve, handle}
use ps3_memorycard_adapter.Nbd.Stream.{Pieces, Received, recvall-take, recvall-short}
use ps3_memorycard_adapter.Nbd.Format.{request_of-encode}
use ps3_memorycard_adapter.Nbd.Answers.{reply_bytes, Replied, serve-Replied}
use ps3_memorycard_adapter.Nbd.ReadOnly.{handle-Keeps}
use ps3_memorycard_adapter.Nbd.Transfers.{read_answer, serve-read}
use ps3_memorycard_adapter.Nbd.Written.{Stored, serve-write}
use ps3_memorycard_adapter.Nbd.Framing.{Framed, handle-Framed}

abbrev in_memory : Device Bytes
in_memory = record {
  get_size = λ c. (ok (some (length c)), c);
  get_page_size = λ c. (ok (some 1), c);
  read = λ offset len c. (ok (slice offset len c), c);
  write = λ offset b c. (ok tt, splice c offset b);
}

abbrev tag : Bytes
tag = 1 ∷ 2 ∷ 3 ∷ 4 ∷ 5 ∷ 6 ∷ 7 ∷ 8 ∷ []

abbrev read_request_2 : Request
read_request_2 = record { flags = 0; command = 0; handle = tag; offset = 1; len = 2 }

abbrev write_request_2 : Request
write_request_2 = record { flags = 1; command = 1; handle = tag; offset = 1; len = 2 }

read_request_2-Fits : Fits read_request_2
read_request_2-Fits = record {
  flags = omega arith;
  command = omega arith;
  handle = refl;
  offset = omega arith;
  len = omega arith;
}

write_request_2-Fits : Fits write_request_2
write_request_2-Fits = record {
  flags = omega arith;
  command = omega arith;
  handle = refl;
  offset = omega arith;
  len = omega arith;
}

abbrev world : List Bytes → World Bytes
world arrivals = record {
  device = 10 ∷ 11 ∷ 12 ∷ 13 ∷ [];
  arrivals = arrivals;
  sent = [];
  closed = false;
  shutdown_error = none;
  buffer = [];
}

abbrev three_pieces : List Bytes
three_pieces = (20 ∷ []) ∷ (21 ∷ 22 ∷ []) ∷ (23 ∷ []) ∷ []

three_pieces-Pieces : Pieces three_pieces
three_pieces-Pieces = (omega arith, (omega arith, (omega arith, tt)))

recvall-take_example :
    Received (20 ∷ 21 ∷ []) (22 ∷ 23 ∷ []) (world three_pieces) (recvall 3 2 (world three_pieces))
recvall-take_example =
    recvall-take 3 2 (world three_pieces) three_pieces-Pieces (omega arith) (omega arith)

recvall-short_example : (recvall 100 5 (world three_pieces)).0 ≡ no_fuel
recvall-short_example = recvall-short 100 5 (world three_pieces) three_pieces-Pieces (omega arith)

request_of-encode_example :
    (magic_of (encode write_request_2) ≡ nbd_request_magic)
    × (request_of (encode write_request_2) ≡ write_request_2)
request_of-encode_example = request_of-encode write_request_2 write_request_2-Fits

serve-Replied_example :
    Replied in_memory false 9
      (request_of (encode read_request_2))
      (world [])
      (serve in_memory false 9 (encode read_request_2) (world [])).1
serve-Replied_example = serve-Replied in_memory false 9 (encode read_request_2) (world []) (
    ap (λ t. t.0)
      (serve-read in_memory false 9 read_request_2 (world []) read_request_2-Fits (omega arith) refl
        (omega arith) (omega arith) λ h. cc))

-- A read-only server receives a whole request to write.
handle-Keeps_example :
    (handle in_memory true 9 (world (encode write_request_2 ∷ (20 ∷ 21 ∷ []) ∷ []))).1.device
    ≡ 10 ∷ 11 ∷ 12 ∷ 13 ∷ []
handle-Keeps_example =
    handle-Keeps in_memory 9 (λ offset len d. refl)
      (world (encode write_request_2 ∷ (20 ∷ 21 ∷ []) ∷ []))

serve-read_example :
    serve in_memory true 9 (encode read_request_2) (world [])
    ≡ (ok true, record (world []) { sent = reply_bytes tag 0 (11 ∷ 12 ∷ []) })
unfolding read_answer
serve-read_example =
    serve-read in_memory true 9 read_request_2 (world []) read_request_2-Fits (omega arith) refl
      (omega arith) (omega arith) (λ h. cc)

serve-write_example :
    Stored in_memory 9 write_request_2
      (20 ∷ 21 ∷ [])
      (22 ∷ 23 ∷ [])
      (world three_pieces)
      (serve in_memory false 9 (encode write_request_2) (world three_pieces))
serve-write_example =
    serve-write in_memory 9 write_request_2 (world three_pieces) write_request_2-Fits (omega arith)
      refl (omega arith) (omega arith) three_pieces-Pieces (omega arith) (omega arith)

-- A request in two pieces, and its data.
abbrev split_request : World Bytes
split_request =
    world (take 5 (encode write_request_2) ∷ drop 5 (encode write_request_2) ∷ (20 ∷ 21 ∷ []) ∷ [])

handle-Framed_example : Framed in_memory false 9 split_request
unfolding encode big
handle-Framed_example =
    handle-Framed in_memory false 9 split_request (omega arith, (omega arith, (omega arith, tt)))
      (omega arith) (omega arith)
