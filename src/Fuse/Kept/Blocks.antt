-- ===== src/Fuse/Kept/Blocks.antt =====
-- The operations of `PS1Card` that write, on a card that was mapped for reading.
use ps3_memorycard_adapter.Prelude.{
  ℕ, ◌/◌, ◌%◌, Bool, true, false, ◌==◌, struct_error, value_error, type_error, pure,
}
use Prim.Native.Nat.{bit_and}
use ps3_memorycard_adapter.Struct.{pack_little, unpack_little}
use ps3_memorycard_adapter.Fuse.Layout.{block_length, block_status_used}
use ps3_memorycard_adapter.Fuse.Card.{only_byte}
use ps3_memorycard_adapter.Fuse.Allocation.{
  mark_used, allocate_block, create_save, chain_blocks, Number, float, times, pack_number, add_one,
  get_save_block_count, set_save_block_count, append_block, free_block, delete_save,
}
use ps3_memorycard_adapter.Fuse.Kept.{
  Kept, Kept-bind, Kept-pure, Kept-raise, Kept-or_raise, Kept-assert, Kept-if, Kept-read,
  Kept-write, Kept-update_xor, Kept-check_xor, Kept-iter,
}

Kept-mark_used : (n : ℕ) (is_head : Bool) → Kept (mark_used n is_head)
unfolding mark_used
Kept-mark_used n is_head = Kept-bind _ _ (Kept-write _ _) λ _.
    Kept-bind _ _
      (Kept-if is_head _ _ (Kept-bind _ _ (Kept-write _ _) λ _. Kept-write _ _) (Kept-pure tt))
      λ _. Kept-bind _ _ (Kept-write _ _) λ _. Kept-update_xor n

Kept-allocate_block : (n : ℕ) (is_head : Bool) → Kept (allocate_block n is_head)
unfolding allocate_block
Kept-allocate_block n is_head = Kept-bind _ _ (Kept-check_xor n) λ _.
    Kept-bind _ _ (Kept-read _ _) λ b.
      Kept-bind _ _ (Kept-or_raise (only_byte b) type_error) λ state.
        Kept-if (bit_and state block_status_used == 0) _ _ (Kept-mark_used n is_head)
          (Kept-raise value_error)

pub Kept-create_save : (n : ℕ) → Kept (create_save n)
unfolding create_save
Kept-create_save n = Kept-allocate_block n true

Kept-chain_blocks : (n m : ℕ) → Kept (chain_blocks n m)
unfolding chain_blocks
Kept-chain_blocks n m =
    Kept-bind _ _ (Kept-or_raise (pack_little 2 m) struct_error) λ b. Kept-write _ _

Kept-get_count : (n : ℕ) → Kept (get_save_block_count n)
unfolding get_save_block_count
Kept-get_count n = Kept-bind _ _ (Kept-read _ _) λ found.
    Kept-bind _ _ (Kept-or_raise (unpack_little 4 found) struct_error) λ size.
      Kept-bind _ _ (Kept-assert (size % block_length == 0))
        λ _. Kept-pure (float (size / block_length))

Kept-set_count : (n : ℕ) (count : Number) → Kept (set_save_block_count n count)
unfolding set_save_block_count
Kept-set_count n count =
    Kept-bind _ _ (Kept-or_raise (pack_number (times count block_length)) struct_error)
      λ b. Kept-write _ _

pub Kept-append_block : (fuel n m : ℕ) → Kept (append_block fuel n m)
unfolding append_block
Kept-append_block fuel n m = Kept-bind _ _ (Kept-allocate_block m false) λ _.
    Kept-bind _ _ (Kept-iter fuel (λ k _. pure k) n n λ k x. Kept-pure k) λ last.
      Kept-bind _ _ (Kept-chain_blocks last m) λ _.
        Kept-bind _ _ (Kept-if (last == n) _ _ (Kept-pure tt) (Kept-update_xor last)) λ _.
          Kept-bind _ _ (Kept-get_count n)
            λ count. Kept-bind _ _ (Kept-set_count n (add_one count)) λ _. Kept-update_xor n

pub Kept-free_block : (n : ℕ) → Kept (free_block n)
unfolding free_block
Kept-free_block n = Kept-bind _ _ (Kept-read _ _) λ b.
    Kept-bind _ _ (Kept-or_raise (only_byte b) value_error)
      λ state. Kept-bind _ _ (Kept-write _ _) λ _. Kept-update_xor n

pub Kept-delete_save : (fuel n : ℕ) → Kept (delete_save fuel n)
unfolding delete_save
Kept-delete_save fuel n = Kept-bind _ _ (Kept-read _ _) λ b.
    Kept-bind _ _ (Kept-or_raise (only_byte b) type_error) λ state.
      Kept-if (bit_and state block_status_used == block_status_used) _ _
        (Kept-bind _ _ (Kept-iter fuel (λ k _. free_block k) n tt λ k x. Kept-free_block k)
          λ _. Kept-free_block n)
        (Kept-raise value_error)
