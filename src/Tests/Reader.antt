-- ===== src/Tests/Reader.antt =====
-- Runs of the reader's theorems at concrete inputs: a card in memory, and an adapter that has
-- packets to give.
use ps3_memorycard_adapter.Prelude.{
  splice, ◌*◌, ◌≡◌, ◌≢◌, refl, ap, List, [], ◌∷◌, arith, length, slice, replicate, Bytes, Exc, ok,
  raised, Action,
}
use ps3_memorycard_adapter.Struct.{little}
use ps3_memorycard_adapter.Reader.Host.{Host}
use ps3_memorycard_adapter.Reader.Cards.{write_frame}
use ps3_memorycard_adapter.Reader.Blocks.{Blocks, read_range, write}
use ps3_memorycard_adapter.Reader.Media.{Returns, Readable}
use ps3_memorycard_adapter.Reader.Packets.{long_response_read}
use ps3_memorycard_adapter.Reader.Response.{Gives, long_response_read-join}
use ps3_memorycard_adapter.Reader.ReadRange.{read_range-slice}
use ps3_memorycard_adapter.Reader.Writes.{write_frame-raises, write-Fails}

-- Three blocks of four bytes.
abbrev in_memory : Blocks Bytes
in_memory = record {
  read_block = λ n c. (ok (slice (n * 4) 4 c), c);
  write_block = λ n b c. (ok tt, splice c (n * 4) b);
  block_length = 4;
  max_length = 12;
}

abbrev Stored : Bytes → Bytes → Type 0
Stored c s = (s ≡ c) × (length c ≡ 12)

abbrev in_memory-Readable : Readable in_memory Stored
in_memory-Readable = record {
  count = 3;
  positive = omega arith;
  whole = refl;
  size = λ c s h. h.1;
  reads = λ c s n h lt. record {
    state = s;
    returns = ap (λ t. (ok (slice (n * 4) 4 t), s)) h.0;
    post = h;
  };
}

abbrev twelve : Bytes
twelve = 0 ∷ 1 ∷ 2 ∷ 3 ∷ 4 ∷ 5 ∷ 6 ∷ 7 ∷ 8 ∷ 9 ∷ 10 ∷ 11 ∷ []

-- From the middle of the first block to the middle of the last.
read_range-slice_example :
    Returns (read_range in_memory 3 7 twelve) (3 ∷ 4 ∷ 5 ∷ 6 ∷ 7 ∷ 8 ∷ 9 ∷ []) (Stored twelve)
read_range-slice_example =
    read_range-slice in_memory Stored in_memory-Readable twelve twelve (refl, refl) 3 7
      (omega arith) (omega arith)

-- An adapter that has packets to give, and takes all that is written.
abbrev next_packet : Action (List Bytes) Bytes
next_packet [] = (ok [], [])
next_packet (p ∷ ps) = (ok p, ps)

abbrev talking : Host (List Bytes)
talking = record {
  bulk_read = λ endpoint len. next_packet;
  bulk_write = λ endpoint b s. (ok tt, s);
  answer = λ seed s. (ok [], s);
}

abbrev no_frame : Bytes
no_frame = replicate 0x80 0

write_frame-raises_example : (e : Exc) × (write_frame talking 9 5 no_frame [] ≡ (raised e, []))
write_frame-raises_example = write_frame-raises talking 9 5 no_frame []

-- A PS1 card is in the adapter, and the frame that the write begins in is asked for.
write-Fails_example : (write talking 9 128 (1 ∷ 2 ∷ []) ((0x55 ∷ 1 ∷ []) ∷ [])).0 ≢ ok tt
write-Fails_example = write-Fails talking 9 128 (1 ∷ 2 ∷ []) ((0x55 ∷ 1 ∷ []) ∷ []) (omega arith)

-- Five bytes of data in three packets.
abbrev packets : List Bytes
packets = (0x55 ∷ 0x5a ∷ 5 ∷ 0 ∷ 1 ∷ 2 ∷ []) ∷ (3 ∷ []) ∷ (4 ∷ 5 ∷ []) ∷ []

abbrev IsEmpty : List Bytes → Type 0
IsEmpty s = s ≡ []

packets-Gives : Gives talking packets IsEmpty packets
packets-Gives = record {
  state = (3 ∷ []) ∷ (4 ∷ 5 ∷ []) ∷ [];
  returns = refl;
  post = record {
    state = (4 ∷ 5 ∷ []) ∷ [];
    returns = refl;
    post = record { state = []; returns = refl; post = refl };
  };
}

long_response_read-join_example :
    Returns (long_response_read talking 3 packets) (0x5a ∷ [], 1 ∷ 2 ∷ 3 ∷ 4 ∷ 5 ∷ []) IsEmpty
unfolding little
long_response_read-join_example =
    long_response_read-join talking 3 (1 ∷ 2 ∷ []) ((3 ∷ []) ∷ (4 ∷ 5 ∷ []) ∷ []) IsEmpty packets
      (omega arith, (omega arith, tt)) (omega arith) (omega arith) packets-Gives
