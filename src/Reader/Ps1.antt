-- ===== src/Reader/Ps1.antt =====
-- What `PlayStationMemoryCardReader` relies on of an adapter with a PS1 card in it, and reading
-- such a card.
use ps3_memorycard_adapter.Prelude.{
  ℕ, ◌+◌, ◌-◌, ◌*◌, ◌%◌, ◌≤◌, ◌<◌, ◌≡◌, refl, ap, sym, ◌∙◌, List, [], ◌∷◌, ◌++◌, append_assoc,
  arith, lt→ltb, length, length-append, length-slice, take, drop, slice, take-append, drop-append,
  Bytes, join,
}
use ps3_memorycard_adapter.Struct.{little, big, length-big}
use ps3_memorycard_adapter.Reader.Host.{Host}
use ps3_memorycard_adapter.Reader.Packets.{
  bulk_write_endpoint, command_code, command_type_long, response_code, response_status_success,
  usb_read, usb_write, response_read, command_write, long_command_write,
}
use ps3_memorycard_adapter.Reader.Commands.{get_card_type}
use ps3_memorycard_adapter.Reader.Cards.{frame_length, ps1_card_size, ps1_command_tail, read_frame}
use ps3_memorycard_adapter.Reader.Blocks.{frames, read}
use ps3_memorycard_adapter.Reader.Media.{Returns, Readable}
use ps3_memorycard_adapter.Reader.Response.{Packets, Gives, long_response_read-join}
use ps3_memorycard_adapter.Reader.ReadRange.{read_range-slice}

-- The command that reads a frame.
abbrev pub frame_command : ℕ → Bytes
frame_command n = 0x81 ∷ 0x52 ∷ 0 ∷ 0 ∷ (big 2 n ++ ps1_command_tail)

module _ {D : Type 0} (host : Host D) (Holds : Bytes → D → Type 0) where
  -- The response to it is on its way, in any packets: ten bytes, the frame, and two bytes more.
  pub record FrameResponse (c : Bytes) (n : ℕ) (d : D) : Type 0 where
    pub lead : Bytes
    pub trail : Bytes
    pub first : Bytes
    pub more : List Bytes
    pub length_lead : length lead ≡ 0xa
    pub length_trail : length trail ≡ 2
    pub whole : first ++ join more ≡ lead ++ (slice (n * frame_length) frame_length c ++ trail)
    pub full : Packets more
    pub gives :
        Gives host
          ((response_code
              ++ (response_status_success ++ (little 2 (length (first ++ join more)) ++ first)))
            ∷ more)
          (Holds c)
          d

  -- The adapter answers the two commands that `read` sends to it, and keeps the card's bytes.
  pub record Ps1Adapter : Type 0 where
    pub size : (c : Bytes) (s : D) → Holds c s → length c ≡ ps1_card_size
    pub card_type :
        (c : Bytes) (s : D)
        → Holds c s
        → Returns
            (host.bulk_write bulk_write_endpoint (command_code ++ 0x40 ∷ []) s)
            tt
            (Gives host ((response_code ++ 1 ∷ []) ∷ []) (Holds c))
    pub frame :
        (c : Bytes) (s : D) (n : ℕ)
        → Holds c s
        → n < 0x400
        → Returns
            (host.bulk_write bulk_write_endpoint
              (command_code ++ (command_type_long ++ (little 2 140 ++ frame_command n)))
              s)
            tt
            (FrameResponse c n)

Packets-length : (ps : List Bytes) → Packets ps → length ps ≤ length (join ps)
Packets-length [] h = omega arith
Packets-length (p ∷ ps) (positive, h) =
    omega (arith, Packets-length ps h, length-append p (join ps))

module _ {D : Type 0} (host : Host D) (fuel : ℕ) (Holds : Bytes → D → Type 0)
    (adapter : Ps1Adapter host Holds) (fuelled : 140 < fuel) where
  length_command : (n : ℕ) → length (frame_command n) ≡ 140
  length_command n = omega (arith, length-append (big 2 n) ps1_command_tail, length-big 2 n)

  frame_data :
      (lead frame trail : Bytes)
      → length lead ≡ 0xa
      → length trail ≡ 2
      → let b = lead ++ (frame ++ trail) in drop 0xa (take (length b - 2) b) ≡ frame
  frame_data lead frame trail h k =
      let b = lead ++ (frame ++ trail) in
      let n : length (lead ++ frame) ≡ length b - 2 = omega (
        arith,
        length-append lead frame,
        length-append lead (frame ++ trail),
        length-append frame trail,
      ) in
      ap (λ t. drop 0xa (take (length b - 2) t)) (sym (append_assoc lead frame trail))
      ∙ ap (drop 0xa) (take-append (length b - 2) (lead ++ frame) trail n)
      ∙ drop-append 0xa lead frame h

  read_frame-slice :
      (c : Bytes) (s : D) (n : ℕ)
      → Holds c s
      → n < 0x400
      → Returns (read_frame host fuel n s) (slice (n * frame_length) frame_length c) (Holds c)
  unfolding read_frame long_command_write command_write usb_write
  read_frame-slice c s n h lt =
      let sending = adapter.frame c s n h lt in
      let r = sending.post in
      let frame = slice (n * frame_length) frame_length c in
      let length_frame : length frame ≡ frame_length =
        length-slice (n * frame_length) frame_length c (omega (arith, adapter.size c s h)) in
      let length_all : length (r.first ++ join r.more) ≡ 140 =
        ap length r.whole
        ∙ omega (
          arith,
          length-append r.lead (frame ++ r.trail),
          length-append frame r.trail,
          r.length_lead,
          r.length_trail,
        ) in
      let few : length r.more < fuel =
        omega (arith, Packets-length r.more r.full, length-append r.first (join r.more)) in
      let x =
        long_response_read-join host fuel r.first r.more (Holds c) sending.state r.full
          (omega arith) few r.gives in
      rw
        (
          lt→ltb n 65536 (omega arith),
          length_command n,
          sending.returns,
          x.returns,
          r.whole,
          frame_data r.lead frame r.trail r.length_lead r.length_trail,
          length_frame,
        )
        (record { state = x.state; returns = refl; post = x.post })

  get_card_type-one :
      (c : Bytes) (s : D) → Holds c s → Returns (get_card_type host fuel s) 1 (Holds c)
  unfolding get_card_type command_write usb_write response_read usb_read
  get_card_type-one c s h =
      let sending = adapter.card_type c s h in
      let receiving = sending.post in
      rw (sending.returns, receiving.returns)
        (record { state = receiving.state; returns = refl; post = receiving.post })

  frames-Readable : Readable (frames host fuel) Holds
  frames-Readable = record {
    count = 0x400;
    positive = omega arith;
    whole = refl;
    size = adapter.size;
    reads = read_frame-slice;
  }

  -- Over an adapter that answers as described, with a PS1 card in it, `read` returns the bytes of
  -- the card that it is asked for, in whatever packets the frames arrive, and the card keeps its
  -- bytes. The range is one of the card, and is not empty at the start of a frame; 141 rounds for
  -- a response are enough.
  pub read-slice :
      (c : Bytes) (s : D) (offset len : ℕ)
      → Holds c s
      → offset + len ≤ ps1_card_size
      → 0 < offset % frame_length + len
      → Returns (read host fuel offset len s) (slice offset len c) (Holds c)
  unfolding read
  read-slice c s offset len h fits some_bytes =
      let t = get_card_type-one c s h in
      rw t.returns (
        read_range-slice (frames host fuel) Holds frames-Readable c t.state t.post offset len fits
          some_bytes)
