-- ===== src/Fuse/Blocks.antt =====
-- The bytes that the blocks of a save hold, one block after the other.
use ps3_memorycard_adapter.Prelude.{
  some_eq, ℕ, zero, suc, ◌+◌, ◌-◌, ◌*◌, ◌≤◌, ◌<◌, ◌≡◌, refl, ap, sym, ◌∙◌, none, some, List, [],
  ◌∷◌, ◌++◌, append_assoc, append-nil, arith, length, take, drop, slice, length-slice, slice-slice,
  take-append_le, drop-append_le, drop-append_ge, length-drop, get_elem?, Bytes, join,
}
use ps3_memorycard_adapter.Fuse.Layout.{block_length}

-- The data of these blocks in an image.
abbrev pub data_of : List ℕ → Bytes → Bytes
data_of [] content = []
data_of (n ∷ ns) content = slice (n * block_length) block_length content ++ data_of ns content

-- The image has all of these blocks.
unfoldable pub InImage : List ℕ → Bytes → Type 0
InImage [] content = Unit
InImage (n ∷ ns) content = ((n + 1) * block_length ≤ length content) × InImage ns content

-- A part of a block.
pub slice-data_of :
    (ns : List ℕ) (content : Bytes) (i n start count : ℕ)
    → InImage ns content
    → get_elem? ns i ≡ some n
    → start + count ≤ block_length
    → slice (i * block_length + start) count (data_of ns content)
      ≡ slice (n * block_length + start) count content
unfolding InImage
slice-data_of [] content i n start count h e k = absurd cc
slice-data_of (m ∷ ns) content zero n start count h e k =
    let front = slice (m * block_length) block_length content in
    let whole = length-slice (m * block_length) block_length content (omega (arith, h.0)) in
    let same : m ≡ n = some_eq e in
    let at_start : 0 * block_length + start ≡ start = omega arith in
    ap (λ (j : ℕ). slice j count (front ++ data_of ns content)) at_start
    ∙ ap (take count) (drop-append_le start front (data_of ns content) (omega arith))
    ∙ take-append_le count (drop start front) (data_of ns content)
        (omega (arith, length-drop start front))
    ∙ slice-slice start count (m * block_length) block_length content k
    ∙ ap (λ (j : ℕ). slice (j * block_length + start) count content) same
slice-data_of (m ∷ ns) content (suc i) n start count h e k =
    let front = slice (m * block_length) block_length content in
    let whole = length-slice (m * block_length) block_length content (omega (arith, h.0)) in
    let beyond : suc i * block_length + start - length front ≡ i * block_length + start =
      omega arith in
    ap (take count)
      (drop-append_ge (suc i * block_length + start) front (data_of ns content) (omega arith))
    ∙ ap (λ (j : ℕ). slice j count (data_of ns content)) beyond
    ∙ slice-data_of ns content i n start count h.1 e k

pub join-append : (parts : List Bytes) (b : Bytes) → join (parts ++ b ∷ []) ≡ join parts ++ b
join-append [] b = append-nil b
join-append (p ∷ parts) b =
    ap (λ (t : Bytes). p ++ t) (join-append parts b) ∙ sym (append_assoc p (join parts) b)

pub get_elem?_there : (ns : List ℕ) (i : ℕ) → i < length ns → (n : ℕ) × (get_elem? ns i ≡ some n)
get_elem?_there [] i h = absurd (omega arith)
get_elem?_there (n ∷ ns) zero h = (n, refl)
get_elem?_there (n ∷ ns) (suc i) h = get_elem?_there ns i (omega arith)

pub get_elem?_beyond : (ns : List ℕ) (i : ℕ) → length ns ≤ i → get_elem? ns i ≡ none
get_elem?_beyond [] i h = refl
get_elem?_beyond (n ∷ ns) zero h = absurd (omega arith)
get_elem?_beyond (n ∷ ns) (suc i) h = get_elem?_beyond ns i (omega arith)
