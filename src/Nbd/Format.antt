-- ===== src/Nbd/Format.antt =====
-- The decoding of a request, NBD_REQUEST_FORMAT of nbd/nbd.py.
use ps3_memorycard_adapter.Prelude.{
  ℕ, ◌≡◌, refl, ap, sym, ◌∙◌, ◌++◌, append_assoc, arith, length, length-append, take, slice,
  take-append, drop-append, take_all, Bytes,
}
use ps3_memorycard_adapter.Struct.{big, of_big, length-big, of_big-big}
use ps3_memorycard_adapter.Nbd.Request.{
  nbd_request_magic, Request, magic_of, request_of, encode, Fits,
}

-- The part of `a ++ (b ++ c)` behind a.
slice_middle :
    (i n : ℕ) (a b c : Bytes) → length a ≡ i → length b ≡ n → slice i n (a ++ (b ++ c)) ≡ b
slice_middle i n a b c ha hb = ap (take n) (drop-append i a (b ++ c) ha) ∙ take-append n b c hb

-- The last part.
slice_last : (i n : ℕ) (a b : Bytes) → length a ≡ i → length b ≡ n → slice i n (a ++ b) ≡ b
slice_last i n a b ha hb = ap (take n) (drop-append i a b ha) ∙ take_all n b (omega arith)

module _ (r : Request) (fits : Fits r) where
  abbrev magic_field : Bytes
  magic_field = nbd_request_magic

  abbrev flags_field : Bytes
  flags_field = big 2 r.flags

  abbrev command_field : Bytes
  command_field = big 2 r.command

  abbrev offset_field : Bytes
  offset_field = big 8 r.offset

  abbrev len_field : Bytes
  len_field = big 4 r.len

  n_f : length flags_field ≡ 2
  n_f = length-big 2 r.flags

  n_c : length command_field ≡ 2
  n_c = length-big 2 r.command

  n_o : length offset_field ≡ 8
  n_o = length-big 8 r.offset

  n_n : length len_field ≡ 4
  n_n = length-big 4 r.len

  pub length-encode : length (encode r) ≡ 28
  unfolding encode
  length-encode = omega (
    arith,
    length-append flags_field (command_field ++ (r.handle ++ (offset_field ++ len_field))),
    length-append command_field (r.handle ++ (offset_field ++ len_field)),
    length-append r.handle (offset_field ++ len_field),
    length-append offset_field len_field,
    n_f,
    n_c,
    n_o,
    n_n,
    fits.handle,
  )

  flags_of : slice 4 2 (encode r) ≡ flags_field
  unfolding encode
  flags_of = slice_middle 4 2 magic_field flags_field _ refl n_f

  command_of : slice 6 2 (encode r) ≡ command_field
  unfolding encode
  command_of =
      ap (slice 6 2) (sym (append_assoc magic_field flags_field _))
      ∙ slice_middle 6 2 (magic_field ++ flags_field) command_field _
          (omega (arith, length-append magic_field flags_field, n_f)) n_c

  handle_of : slice 8 8 (encode r) ≡ r.handle
  unfolding encode
  handle_of =
      ap (slice 8 8) (
        let e : magic_field
              ++ (flags_field ++ (command_field ++ (r.handle ++ (offset_field ++ len_field))))
            ≡ ((magic_field ++ flags_field) ++ command_field)
              ++ (r.handle ++ (offset_field ++ len_field)) =
          simp append_assoc in
        e)
      ∙ slice_middle 8 8 ((magic_field ++ flags_field) ++ command_field) r.handle _
          (omega (
            arith,
            length-append (magic_field ++ flags_field) command_field,
            length-append magic_field flags_field,
            n_f,
            n_c,
          ))
          fits.handle

  offset_of : slice 16 8 (encode r) ≡ offset_field
  unfolding encode
  offset_of =
      ap (slice 16 8) (
        let e : magic_field
              ++ (flags_field ++ (command_field ++ (r.handle ++ (offset_field ++ len_field))))
            ≡ (((magic_field ++ flags_field) ++ command_field) ++ r.handle)
              ++ (offset_field ++ len_field) =
          simp append_assoc in
        e)
      ∙ slice_middle 16 8 (((magic_field ++ flags_field) ++ command_field) ++ r.handle) offset_field
          _
          (omega (
            arith,
            length-append ((magic_field ++ flags_field) ++ command_field) r.handle,
            length-append (magic_field ++ flags_field) command_field,
            length-append magic_field flags_field,
            n_f,
            n_c,
            fits.handle,
          ))
          n_o

  len_of : slice 24 4 (encode r) ≡ len_field
  unfolding encode
  len_of =
      ap (slice 24 4) (
        let e : magic_field
              ++ (flags_field ++ (command_field ++ (r.handle ++ (offset_field ++ len_field))))
            ≡ ((((magic_field ++ flags_field) ++ command_field) ++ r.handle) ++ offset_field)
              ++ len_field =
          simp append_assoc in
        e)
      ∙ slice_last 24 4
          ((((magic_field ++ flags_field) ++ command_field) ++ r.handle) ++ offset_field) len_field
          (omega (
            arith,
            length-append (((magic_field ++ flags_field) ++ command_field) ++ r.handle)
                offset_field,
            length-append ((magic_field ++ flags_field) ++ command_field) r.handle,
            length-append (magic_field ++ flags_field) command_field,
            length-append magic_field flags_field,
            n_f,
            n_c,
            n_o,
            fits.handle,
          ))
          n_n

  fields : request_of (encode r) ≡ r
  unfolding request_of
  fields = λ i. record {
    flags = (ap of_big flags_of ∙ of_big-big 2 r.flags fits.flags) i;
    command = (ap of_big command_of ∙ of_big-big 2 r.command fits.command) i;
    handle = handle_of i;
    offset = (ap of_big offset_of ∙ of_big-big 8 r.offset fits.offset) i;
    len = (ap of_big len_of ∙ of_big-big 4 r.len fits.len) i;
  }

  -- The 28 bytes of a request whose fields fit are decoded to its magic number and its fields.
  pub request_of-encode : (magic_of (encode r) ≡ nbd_request_magic) × (request_of (encode r) ≡ r)
  unfolding magic_of request_of
  request_of-encode = (unfold encode in refl, fields)
