-- ===== src/Nbd/Unbound.antt =====
-- `greet`, and an option NBD_OPT_INFO or NBD_OPT_GO that is too short.
use ps3_memorycard_adapter.Prelude.{
  ℕ, suc, ◌⊎◌, inl, inr, raised, unbound_local_error, ◌^◌, ◌<◌, ◌≡◌, refl, ap, ◌∙◌, Bool, false,
  some, List, [], ◌∷◌, ◌++◌, append_assoc, arith, length, Bytes, join, Outcome, Exc,
}
use ps3_memorycard_adapter.Struct.{big, length-big, of_big-big}
use ps3_memorycard_adapter.Nbd.Wire.{Device, World, sendall}
use ps3_memorycard_adapter.Nbd.Request.{outside}
use ps3_memorycard_adapter.Nbd.Stream.{Pieces}
use ps3_memorycard_adapter.Nbd.Options.{max_opt_size}
use ps3_memorycard_adapter.Nbd.Greet.{
  nbd_greeting_prefix, answer_info, answer_value, answer_option, option_loop, negotiate, greet,
}
use ps3_memorycard_adapter.Nbd.Negotiation.{option_header, recvall-append, recv_option-Took}
use ps3_memorycard_adapter.Nbd.Go.{greeting}
use ps3_memorycard_adapter.Nbd.Opt

-- A call that raised, with the rest of the stream.
pub record Raised {D A : Type 0} (e : Exc) (left : Bytes) (w : World D) (r : Outcome A × World D)
    : Type 0 where
  pub rest : List Bytes
  pub raises : r ≡ (raised e, record w { arrivals = rest })
  pub stream : join rest ≡ left

greeted : nbd_greeting_prefix ++ big 2 3 ≡ greeting
unfolding big
greeted = refl

module _ {D : Type 0} (dev : Device D) (read_only : Bool) where
  answer_info-unbound :
      (option : ℕ) (value : Bytes) (w : World D)
      → length value < 4
      → answer_info dev read_only false option value w ≡ (raised unbound_local_error, w)
  unfolding answer_info
  answer_info-unbound option [] w short = refl
  answer_info-unbound option (a ∷ []) w short = refl
  answer_info-unbound option (a ∷ b ∷ []) w short = refl
  answer_info-unbound option (a ∷ b ∷ c ∷ []) w short = refl
  answer_info-unbound option (a ∷ b ∷ c ∷ d ∷ value) w short = absurd (omega arith)

  answer_option-unbound :
      (option : ℕ) (value : Bytes) (w : World D)
      → (option ≡ Opt.info) ⊎ (option ≡ Opt.go)
      → length value < 4
      → answer_option dev read_only false (option, some value) w ≡ (raised unbound_local_error, w)
  unfolding answer_option answer_value
  answer_option-unbound option value w (inl is_info) short =
      rw is_info (answer_info-unbound Opt.info value w short)
  answer_option-unbound option value w (inr is_go) short =
      rw is_go (answer_info-unbound Opt.go value w short)

  -- A client that knows the fixed newstyle (flags 1 or 3) and whose first option is NBD_OPT_INFO or
  -- NBD_OPT_GO with a value of fewer than four bytes, in whatever pieces its bytes arrive: `greet`
  -- raises UnboundLocalError, nothing is sent but the greeting, and the stream is left behind the
  -- option. No piece is empty, and there is a round for each byte of the limit and one more.
  pub greet-Raised :
      (rounds fuel flags option : ℕ) (value left : Bytes) (w : World D)
      → (flags ≡ 1) ⊎ (flags ≡ 3)
      → (option ≡ 6) ⊎ (option ≡ 7)
      → length value < 4
      → Pieces w.arrivals
      → join w.arrivals ≡ big 4 flags ++ (option_header option (length value) ++ (value ++ left))
      → max_opt_size < fuel
      → Raised unbound_local_error left
          (record w { sent = w.sent ++ greeting })
          (greet dev read_only (suc rounds) fuel w)
  unfolding greet negotiate option_loop sendall outside
  greet-Raised rounds fuel flags option value left w known kind short h e fuelled =
      let small : flags < 4 = elim known [ inl one ↦ omega arith | inr three ↦ omega arith ] in
      let fits : option < 2 ^ 32 = elim kind [ inl six ↦ omega arith | inr seven ↦ omega arith ] in
      let s₁ = (w.sent ++ nbd_greeting_prefix) ++ big 2 3 in
      let w₁ : World D = record w { sent = s₁ } in
      let x =
        recvall-append fuel 4 (big 4 flags) (option_header option (length value) ++ (value ++ left))
          w₁ h e (length-big 4 flags) (omega arith) in
      let w₂ : World D = record w₁ { arrivals = x.rest } in
      let y =
        recv_option-Took fuel option value left w₂ x.pieces x.stream fits (omega arith) fuelled in
      let w₃ : World D = record w₂ { arrivals = y.rest } in
      let refused = answer_option-unbound option value w₃ kind short in
      let ends : Raised {A = Bool} unbound_local_error left (record w { sent = w.sent ++ greeting })
          (raised unbound_local_error, w₃) =
        record {
          rest = y.rest;
          raises =
              ap (λ t. (raised unbound_local_error, record w { arrivals = y.rest; sent = t }))
                (append_assoc w.sent nbd_greeting_prefix (big 2 3) ∙ ap (λ t. w.sent ++ t) greeted);
          stream = y.stream;
        } in
      elim known [
        | inl one ↦ rw (x.returns, of_big-big 4 flags (omega arith), one, y.returns, refused) ends
        | inr three ↦
            rw (x.returns, of_big-big 4 flags (omega arith), three, y.returns, refused) ends
      ]
