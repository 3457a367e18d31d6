-- ===== src/Fuse/Cached.antt =====
-- `getBlockLinkMap` on a card that has its link map cached, and on one that has not.
use ps3_memorycard_adapter.Prelude.{
  ℕ, ◌-◌, ◌≡◌, refl, ap, ◌∙◌, Option, none, some, [], Outcome, ok, Action, and_then, ◌>>=◌,
}
use ps3_memorycard_adapter.Fuse.Layout.{block_count}
use ps3_memorycard_adapter.Fuse.Card.{LinkMap, Card, link_blocks, get_block_link_map}

-- The link map is kept in the card.
abbrev pub cached_in : LinkMap → Action Card LinkMap
cached_in link_map c = (ok link_map, record c { link_map = some link_map })

abbrev computed : ℕ → Action Card LinkMap
computed fuel = do link_map ← link_blocks fuel (block_count - 1) 1 []; cached_in link_map

abbrev by_cache : ℕ → Card → Option LinkMap → Outcome LinkMap × Card
by_cache fuel c none = computed fuel c
by_cache fuel c (some m) = (ok m, c)

get_block_link_map_eq :
    (fuel : ℕ) (c : Card) → get_block_link_map fuel c ≡ by_cache fuel c c.link_map
unfolding get_block_link_map
get_block_link_map_eq fuel c = go c.link_map
  where
    go :
        (o : Option LinkMap)
        → (elim o as (λ _. Outcome LinkMap × Card) [
          | some link_map ↦ (ok link_map, c)
          | none ↦ computed fuel c
        ])
          ≡ by_cache fuel c o
    go none = refl
    go (some m) = refl

pub link_map_cached :
    (fuel : ℕ) (c : Card) (m : LinkMap)
    → c.link_map ≡ some m
    → get_block_link_map fuel c ≡ (ok m, c)
link_map_cached fuel c m h = get_block_link_map_eq fuel c ∙ ap (by_cache fuel c) h

pub link_map_computed :
    (fuel : ℕ) (c : Card)
    → c.link_map ≡ none
    → get_block_link_map fuel c ≡ and_then (link_blocks fuel (block_count - 1) 1 [] c) cached_in
link_map_computed fuel c h = get_block_link_map_eq fuel c ∙ ap (by_cache fuel c) h
