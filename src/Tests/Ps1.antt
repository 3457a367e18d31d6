-- ===== src/Tests/Ps1.antt =====
-- An adapter with a PS1 card in it: it satisfies what the reader relies on, and the theorems on
-- reading a card are applied to it.
use ps3_memorycard_adapter.Prelude.{
  ℕ, ◌+◌, ◌*◌, ◌<◌, ◌≡◌, refl, ap, sym, ◌∙◌, true, false, if◌then◌else◌, List, [], ◌∷◌, ◌++◌,
  append_assoc, arith, length, length-append, length-slice, length-replicate, slice, slice_add,
  take-append, replicate, ◌==ᵇ◌, Bytes, Outcome, ok, none, join,
}
use ps3_memorycard_adapter.Struct.{little, big, of_big, of_big-big, length-big}
use ps3_memorycard_adapter.Reader.Host.{Host}
use ps3_memorycard_adapter.Reader.Packets.{
  command_code, command_type_long, response_code, response_status_success,
}
use ps3_memorycard_adapter.Reader.Cards.{ps1_card_size, ps1_command_tail}
use ps3_memorycard_adapter.Reader.Blocks.{read}
use ps3_memorycard_adapter.Reader.Media.{Returns}
use ps3_memorycard_adapter.Reader.Ps1.{frame_command, FrameResponse, Ps1Adapter, read-slice}
use ps3_memorycard_adapter.Nbd.Wire.{World}
use ps3_memorycard_adapter.Nbd.Request.{Request, encode}
use ps3_memorycard_adapter.Nbd.Handle.{serve}
use ps3_memorycard_adapter.Nbd.Answers.{reply_bytes}
use ps3_memorycard_adapter.Nbd.Card.{card_device, serve-card_read}

record Slot : Type 0 where
  card : Bytes
  pending : List Bytes

abbrev first_packet : Bytes
first_packet = response_code ++ (response_status_success ++ (little 2 140 ++ replicate 0xa 0))

-- The rest of a response: the halves of the frame, and two bytes more.
abbrev more_packets : Bytes → ℕ → List Bytes
more_packets c n = slice (n * 128) 64 c ∷ slice (n * 128 + 64) 64 c ∷ (0x5c ∷ 0x47 ∷ []) ∷ []

abbrev response_to : Bytes → Bytes → List Bytes
response_to command c =
    if slice 1 1 command ==ᵇ (0x40 ∷ [])
    then (0x55 ∷ 1 ∷ []) ∷ []
    else first_packet ∷ more_packets c (of_big (slice 8 2 command))

abbrev take_packet : Slot → List Bytes → Outcome Bytes × Slot
take_packet s [] = (ok [], s)
take_packet s (p ∷ ps) = (ok p, record s { pending = ps })

abbrev slot_host : Host Slot
slot_host = record {
  bulk_read = λ endpoint len s. take_packet s s.pending;
  bulk_write = λ endpoint b s. (ok tt, record s { pending = response_to b s.card });
  answer = λ seed s. (ok [], s);
}

abbrev Inserted : Bytes → Slot → Type 0
Inserted c s = (s.card ≡ c) × (length c ≡ ps1_card_size)

frame_number :
    (n : ℕ)
    → n < 0x400
    → of_big (slice 8 2 (command_code ++ (command_type_long ++ (little 2 140 ++ frame_command n))))
      ≡ n
unfolding little
frame_number n lt =
    ap of_big (take-append 2 (big 2 n) ps1_command_tail (length-big 2 n))
    ∙ of_big-big 2 n (omega arith)

frame_halves :
    (c : Bytes) (n : ℕ) → slice (n * 128) 128 c ≡ slice (n * 128) 64 c ++ slice (n * 128 + 64) 64 c
frame_halves c n = slice_add (n * 128) 64 64 128 c refl

respond :
    (c : Bytes) (s : Slot) (n : ℕ)
    → Inserted c s
    → n < 0x400
    → FrameResponse slot_host Inserted c n (record s { pending = first_packet ∷ more_packets c n })
respond c s n (same, size) lt =
    let a = slice (n * 128) 64 c in
    let b = slice (n * 128 + 64) 64 c in
    let n_a : length a ≡ 64 = length-slice (n * 128) 64 c (omega (arith, size)) in
    let n_b : length b ≡ 64 = length-slice (n * 128 + 64) 64 c (omega (arith, size)) in
    let n_all : length (replicate 0xa 0 ++ join (more_packets c n)) ≡ 140 =
      omega (arith, length-append a (b ++ 0x5c ∷ 0x47 ∷ []), length-append b (0x5c ∷ 0x47 ∷ [])) in
    record {
      lead = replicate 0xa 0;
      trail = 0x5c ∷ 0x47 ∷ [];
      first = replicate 0xa 0;
      more = more_packets c n;
      length_lead = refl;
      length_trail = refl;
      whole =
          ap (λ t. replicate 0xa 0 ++ t)
            (sym (append_assoc a b (0x5c ∷ 0x47 ∷ []))
              ∙ ap (λ t. t ++ 0x5c ∷ 0x47 ∷ []) (sym (frame_halves c n)));
      full = (omega arith, (omega arith, (omega arith, tt)));
      gives = rw n_all (record {
        state = record s { pending = more_packets c n };
        returns = refl;
        post = record {
          state = record s { pending = b ∷ (0x5c ∷ 0x47 ∷ []) ∷ [] };
          returns = refl;
          post = record {
            state = record s { pending = (0x5c ∷ 0x47 ∷ []) ∷ [] };
            returns = refl;
            post = record {
              state = record s { pending = [] };
              returns = refl;
              post = (same, size);
            };
          };
        };
      });
    }

slot-Ps1Adapter : Ps1Adapter slot_host Inserted
slot-Ps1Adapter = record {
  size = λ c s h. h.1;
  card_type = λ c s h. record {
    state = record s { pending = (0x55 ∷ 1 ∷ []) ∷ [] };
    returns = refl;
    post = record { state = record s { pending = [] }; returns = refl; post = h };
  };
  frame = λ c s n h lt. record {
    state = record s { pending = first_packet ∷ more_packets c n };
    returns =
        ap (λ (k : ℕ). (ok tt, record s { pending = first_packet ∷ more_packets s.card k }))
          (frame_number n lt)
        ∙ ap (λ t. (ok tt, record s { pending = first_packet ∷ more_packets t n })) h.0;
    post = respond c s n h lt;
  };
}

abbrev full_card : Bytes
full_card = replicate 0x20000 7

abbrev inserted : Slot
inserted = record { card = full_card; pending = [] }

-- Across the boundary of two frames.
read-slice_example :
    Returns (read slot_host 141 126 5 inserted) (slice 126 5 full_card) (Inserted full_card)
read-slice_example =
    read-slice slot_host 141 Inserted slot-Ps1Adapter (omega arith) full_card inserted 126 5
      (refl, length-replicate {A = ℕ} 0x20000 7) (omega arith) (omega arith)

abbrev read_126 : Request
read_126 = record {
  flags = 0;
  command = 0;
  handle = 1 ∷ 2 ∷ 3 ∷ 4 ∷ 5 ∷ 6 ∷ 7 ∷ 8 ∷ [];
  offset = 126;
  len = 5;
}

abbrev connected : World Slot
connected = record {
  device = inserted;
  arrivals = [];
  sent = [];
  closed = false;
  shutdown_error = none;
  buffer = [];
}

serve-card_read_example :
    Returns (serve (card_device slot_host 141) true 9 (encode read_126) connected) true (λ w'.
      Inserted full_card w'.device
      × (w'.sent ≡ reply_bytes read_126.handle 0 (slice 126 5 full_card)))
serve-card_read_example =
    serve-card_read slot_host 141 Inserted slot-Ps1Adapter (omega arith) true 9 full_card read_126
      connected (refl, length-replicate {A = ℕ} 0x20000 7)
      (record {
        flags = omega arith;
        command = omega arith;
        handle = refl;
        offset = omega arith;
        len = omega arith;
      })
      (omega arith) refl (omega arith) (omega arith)
