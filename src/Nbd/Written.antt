-- ===== src/Nbd/Written.antt =====
-- Writes through the server, as the client and the device see them.
use ps3_memorycard_adapter.Prelude.{
  ℕ, ◌≤◌, ◌<◌, ◌≡◌, ap, sym, Bool, true, false, List, [], ◌++◌, append-nil, arith, length, take,
  drop, length-take, le→ltb, ==_refl, ==_ne, Bytes, join, unbound_local_error, Outcome, ok, raised,
  no_fuel, and_then, pure,
}
use ps3_memorycard_adapter.Nbd.Wire.{Device, World, on_device, recvall}
use ps3_memorycard_adapter.Nbd.Request.{max_block_size, Request, encode, Fits}
use ps3_memorycard_adapter.Nbd.Handle.{
  caught, write_result, store_received, write_request, carry_out, conclude, serve,
}
use ps3_memorycard_adapter.Nbd.Stream.{Pieces, recvall-take}
use ps3_memorycard_adapter.Nbd.Answers.{reply_bytes, simple_reply_lem}
use ps3_memorycard_adapter.Nbd.Transfers.{plain_flags, serve-encode}
use ps3_memorycard_adapter.Nbd.Cmd
use ps3_memorycard_adapter.Nbd.Errno

-- How a write ends, by what the device did: what the server returns or raises, and what it sends.
unfoldable pub write_answer : Bytes → Outcome (Unit {0}) → Outcome Bool × Bytes
write_answer tag (ok _) = (raised unbound_local_error, [])
write_answer tag (raised e) = (ok true, reply_bytes tag Errno.eio [])
write_answer tag no_fuel = (no_fuel, [])

module _ {D : Type 0} (dev : Device D) (fuel : ℕ) (r : Request) where
  -- The device was given the data, the stream goes on behind them.
  pub record Stored (b left : Bytes) (w : World D) (x : Outcome Bool × World D) : Type 0 where
    pub rest : List Bytes
    pub stream : join rest ≡ left
    pub pieces : Pieces rest
    pub returns : x ≡ (
      (write_answer r.handle (dev.write r.offset b w.device).0).0,
      record w {
        arrivals = rest;
        device = (dev.write r.offset b w.device).1;
        sent = w.sent ++ (write_answer r.handle (dev.write r.offset b w.device).0).1;
      },
    )

  write_result-answer :
      (o : Outcome (Unit {0})) (w : World D)
      → and_then (and_then (caught (o, w)) (λ done. pure (write_result done))) (conclude r.handle)
        ≡ ((write_answer r.handle o).0, record w { sent = w.sent ++ (write_answer r.handle o).1 })
  unfolding write_answer
  write_result-answer (ok _) w =
      ap (λ t. (raised unbound_local_error, record w { sent = t })) (sym (append-nil w.sent))
  write_result-answer (raised e) w = rw (simple_reply_lem r.handle Errno.eio [] w)
  write_result-answer no_fuel w =
      ap (λ t. (no_fuel, record w { sent = t })) (sym (append-nil w.sent))

  carry_out-write :
      (w : World D)
      → r.flags ≤ 1
      → r.command ≡ Cmd.write
      → 0 < r.len
      → r.len ≤ max_block_size
      → carry_out dev false fuel r w ≡ and_then (recvall fuel r.len w) (store_received dev r)
  unfolding carry_out write_request
  carry_out-write w plain is_write some_bytes small =
      rw (plain_flags r.flags r.command plain (omega arith))
        (rw is_write (rw (le→ltb max_block_size r.len small, ==_ne r.len 0 (omega arith))))

  -- A write of some bytes, no more than the protocol's maximum, that are all to come, on a server
  -- that is not read-only: the device is asked once to write exactly these bytes, and the stream
  -- is left behind them. If the device raises, the client gets EIO and the server goes on; if the
  -- device succeeds, the server raises UnboundLocalError and nothing is sent. The fields of the
  -- request fit the format and it has no flag but FUA, no piece is empty, and there is a round for
  -- each byte and one more.
  pub serve-write :
      (w : World D)
      → Fits r
      → r.flags ≤ 1
      → r.command ≡ Cmd.write
      → 0 < r.len
      → r.len ≤ max_block_size
      → Pieces w.arrivals
      → r.len ≤ length (join w.arrivals)
      → r.len < fuel
      → Stored
          (take r.len (join w.arrivals))
          (drop r.len (join w.arrivals))
          w
          (serve dev false fuel (encode r) w)
  unfolding store_received on_device
  serve-write w fits plain is_write some_bytes small pieces enough fuelled =
      let x = recvall-take fuel r.len w pieces enough fuelled in
      let b = take r.len (join w.arrivals) in
      let n : length b ≡ r.len = omega (arith, length-take r.len (join w.arrivals)) in
      let w' : World D = record w { arrivals = x.rest } in
      record {
        rest = x.rest;
        stream = x.stream;
        pieces = x.pieces;
        returns =
            rw
              (
                serve-encode dev false fuel r w fits plain,
                carry_out-write w plain is_write some_bytes small,
                x.returns,
                n,
                ==_refl r.len,
              )
              (write_result-answer (dev.write r.offset b w.device).0
                (record w' { device = (dev.write r.offset b w.device).1 }));
      }
