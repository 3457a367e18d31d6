-- ===== src/Reader/Trim.antt =====
-- Joining blocks, and cutting the first and the last of them.
use ps3_memorycard_adapter.Prelude.{
  ℕ, ◌+◌, ◌-◌, ◌*◌, ◌≤◌, ◌≡◌, ap, sym, ◌∙◌, List, [], ◌∷◌, ◌++◌, append_assoc, append-nil, arith,
  length, length-append, length-drop, take, drop, take-append_ge, drop-append_le, Bytes, join,
}
use ps3_memorycard_adapter.Reader.Blocks.{trim_last}

-- Every block has this length.
abbrev pub AllLength : ℕ → List Bytes → Type 0
AllLength n [] = Unit
AllLength n (b ∷ bs) = (length b ≡ n) × AllLength n bs

pub AllLength-snoc :
    (n : ℕ) (bs : List Bytes) (b : Bytes)
    → AllLength n bs
    → length b ≡ n
    → AllLength n (bs ++ b ∷ [])
AllLength-snoc n [] b h e = (e, tt)
AllLength-snoc n (x ∷ bs) b h e = (h.0, AllLength-snoc n bs b h.1 e)

pub join-snoc : (bs : List Bytes) (b : Bytes) → join (bs ++ b ∷ []) ≡ join bs ++ b
join-snoc [] b = append-nil b
join-snoc (x ∷ bs) b = rw (join-snoc bs b) (sym (append_assoc x (join bs) b))

-- A cut within the last block is a cut of the whole.
pub join-trim_last :
    (count n : ℕ) (b : Bytes) (bs : List Bytes)
    → AllLength n bs
    → count ≤ n
    → join (trim_last count (b ∷ bs)) ≡ take (length (join (b ∷ bs)) - count) (join (b ∷ bs))
join-trim_last count n b [] h hn = simp append-nil
join-trim_last count n b (x ∷ bs) h hn =
    let rest : Bytes = join (x ∷ bs) in
    let n_rest : length rest ≡ length x + length (join bs) = length-append x (join bs) in
    let n_all : length (b ++ rest) ≡ length b + length rest = length-append b rest in
    let cut : length (b ++ rest) - count - length b ≡ length rest - count = omega arith in
    ap (λ t. b ++ t) (join-trim_last count n x bs h.1 hn)
    ∙ ap (λ (k : ℕ). b ++ take k rest) (sym cut)
    ∙ sym (take-append_ge (length (b ++ rest) - count) b rest (omega arith))

-- The blocks of `read` after both cuts, where the second is of `count` bytes.
pub join_trimmed :
    (start count n : ℕ) (b : Bytes) (bs : List Bytes)
    → AllLength n (b ∷ bs)
    → start ≤ n
    → count ≤ n
    → join (trim_last count (drop start b ∷ bs))
      ≡ take (length (join (b ∷ bs)) - start - count) (drop start (join (b ∷ bs)))
join_trimmed start count n b bs h hs hc =
    let all : Bytes = join (b ∷ bs) in
    let seam : drop start b ++ join bs ≡ drop start all =
      sym (drop-append_le start b (join bs) (omega arith)) in
    let cut : length (drop start all) - count ≡ length all - start - count =
      omega (arith, length-drop start all) in
    join-trim_last count n (drop start b) bs h.1 hc
    ∙ ap (λ t. take (length t - count) t) seam
    ∙ ap (λ (k : ℕ). take k (drop start all)) cut

pub length-join : (n : ℕ) (bs : List Bytes) → AllLength n bs → length (join bs) ≡ length bs * n
length-join n [] h = omega arith
length-join n (b ∷ bs) h = omega (arith, length-append b (join bs), length-join n bs h.1, h.0)

-- The blocks of `read` with the first cut alone.
pub join_headless :
    (start n : ℕ) (b : Bytes) (bs : List Bytes)
    → AllLength n (b ∷ bs)
    → start ≤ n
    → join (drop start b ∷ bs) ≡ drop start (join (b ∷ bs))
join_headless start n b bs h hs = sym (drop-append_le start b (join bs) (omega arith))
