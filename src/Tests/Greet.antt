-- ===== src/Tests/Greet.antt =====
-- Runs of the negotiation's theorems at concrete inputs: a client of a device of four bytes.
use ps3_memorycard_adapter.Prelude.{
  refl, true, false, inl, inr, none, some, List, [], ◌∷◌, ◌++◌, arith, Bytes, unbound_local_error,
  ok, raised, value_error, slice,
}
use ps3_memorycard_adapter.Struct.{big}
use ps3_memorycard_adapter.Nbd.Wire.{Device, World}
use ps3_memorycard_adapter.Nbd.Stream.{Pieces}
use ps3_memorycard_adapter.Nbd.Options.{recv_option}
use ps3_memorycard_adapter.Nbd.Greet.{greet}
use ps3_memorycard_adapter.Nbd.Negotiation.{option_header, Took, recv_option-too_big}
use ps3_memorycard_adapter.Nbd.Go.{go_value, greeting, flags_of, info_answers, greet-Took}
use ps3_memorycard_adapter.Nbd.Unbound.{Raised, greet-Raised}
use ps3_memorycard_adapter.Nbd.Opt

abbrev four_bytes : Device Bytes
four_bytes = record {
  get_size = λ c. (ok (some 4), c);
  get_page_size = λ c. (ok (some 1), c);
  read = λ offset len c. (ok (slice offset len c), c);
  write = λ offset b c. (raised value_error, c);
}

abbrev client : List Bytes → World Bytes
client arrivals = record {
  device = 10 ∷ 11 ∷ 12 ∷ 13 ∷ [];
  arrivals = arrivals;
  sent = [];
  closed = false;
  shutdown_error = none;
  buffer = [];
}

-- The flags and the option arrive apart, and a byte behind them.
abbrev go_pieces : List Bytes
go_pieces = big 4 3 ∷ (option_header 7 6 ++ (go_value 0 [] ++ (9 ∷ []))) ∷ []

go_pieces-Pieces : Pieces go_pieces
unfolding big
go_pieces-Pieces = (omega arith, (omega arith, tt))

greet-Took_example :
    Took true
      (9 ∷ [])
      (record (client go_pieces) { sent = greeting ++ info_answers 7 (flags_of true) 4 1 })
      (greet four_bytes true 2 1025 (client go_pieces))
unfolding big
greet-Took_example =
    greet-Took four_bytes true 4 1 (client go_pieces) (10 ∷ 11 ∷ 12 ∷ 13 ∷ [])
      (10 ∷ 11 ∷ 12 ∷ 13 ∷ []) refl refl (omega arith) (omega arith) 1 1025 0 [] (9 ∷ [])
      go_pieces-Pieces refl (omega arith) (omega arith)

-- A value of 1025 bytes was announced, and two of them have arrived.
abbrev long_option : List Bytes
long_option = (option_header Opt.list 1025 ++ (7 ∷ 8 ∷ [])) ∷ []

recv_option-too_big_example :
    Took (Opt.list, none) (7 ∷ 8 ∷ []) (client long_option) (recv_option 17 (client long_option))
unfolding big
recv_option-too_big_example =
    recv_option-too_big 17 Opt.list 1025 (7 ∷ 8 ∷ []) (client long_option) (omega arith, tt) refl
      (omega arith) (omega arith) (omega arith) (omega arith)

-- An NBD_OPT_GO with a value of two bytes, and a byte behind it.
abbrev short_pieces : List Bytes
short_pieces = (big 4 1 ++ (option_header 7 2 ++ (0 ∷ 0 ∷ 9 ∷ []))) ∷ []

greet-Raised_example :
    Raised unbound_local_error
      (9 ∷ [])
      (record (client short_pieces) { sent = greeting })
      (greet four_bytes true 2 1025 (client short_pieces))
unfolding big
greet-Raised_example =
    greet-Raised four_bytes true 1 1025 1 7 (0 ∷ 0 ∷ []) (9 ∷ []) (client short_pieces) (inl refl)
      (inr refl) (omega arith) (omega arith, tt) refl (omega arith)
