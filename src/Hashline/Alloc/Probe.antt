-- ===== src/Hashline/Alloc/Probe.antt =====
-- src/hashline/alloc.ts: `gcd`, `probeStep` and `allocateAnchor`. The set of used anchors is the
-- list of its items, a cursor's `offsets` a map from depths, and `none` the `E_HASH_SPACE` error.
mod Gcd
use Gcd.{gcd}
use dsh_hashline_edittool.Base.{
  ℕ, zero, suc, ◌+◌, ◌-◌, ◌%◌, ◌^◌, ◌≡◌, refl, Bool, true, false, List, [], ◌∷◌, Option, none, some,
  ◌==◌, if◌then◌else◌, arith, Text, codes, has, nat_eq, text_eq,
}
use dsh_hashline_edittool.Base.Number.{◌+ᶠ◌, ◌*ᶠ◌}
use dsh_hashline_edittool.Base.Map
use dsh_hashline_edittool.Hashline.Alloc.Hash.{content_key}
use dsh_hashline_edittool.Hashline.Alloc.Code.{encode_anchor, is_numeric_anchor}

abbrev pub min_anchor_depth : ℕ
min_anchor_depth = 2

abbrev pub max_anchor_depth : ℕ
max_anchor_depth = 8

abbrev pub probe_limit : ℕ
probe_limit = 64

unfoldable pub probe_step : ℕ → ℕ → ℕ
unfolding gcd
probe_step hash total = let step = hash % (total - 1) + 1 in if gcd step total == 1 then step else 1

-- `{ offsets: Record<number, number> }`
abbrev pub Cursor : Type 0
Cursor = List (ℕ × ℕ)

pub record AllocStats : Type 0 where
  pub depth : ℕ
  pub probes : ℕ

-- What a call returns, with the caller's cursor as the call leaves it.
pub record Allocated : Type 0 where
  pub anchor : Text
  pub stats : AllocStats
  pub cursor : Option Cursor

-- How the probes of one layer end.
pub data Layer : Type 0 where
  found : Allocated → Layer
  spilled : Option Cursor → Layer

-- `groupCursor?.offsets[depth] ?? 0`
unfoldable pub offset_at : Option Cursor → ℕ → ℕ
unfolding Map.get
offset_at none depth = 0
offset_at (some offsets) depth = elim (Map.get offsets depth) [ none ↦ 0 | some offset ↦ offset ]

-- `if (groupCursor) groupCursor.offsets[depth] = offset`
unfoldable pub advance : Option Cursor → ℕ → ℕ → Option Cursor
unfolding Map.put
advance none depth offset = none
advance (some offsets) depth offset = some (Map.put offsets depth offset)

module _ (used : List Text) (h depth : ℕ) where
  -- the slot that the probe at `offset` looks at, of `62 ** depth`
  unfoldable pub slot : ℕ → ℕ
  unfolding ◌+ᶠ◌ ◌*ᶠ◌ probe_step
  slot offset = let total = 62 ^ depth in (h % total +ᶠ offset *ᶠ probe_step h total) % total

  -- the inner loop: the rounds left and `probe`
  unfoldable pub probe_layer : ℕ → ℕ → ℕ → Option Cursor → Layer
  unfolding slot encode_anchor is_numeric_anchor advance
  probe_layer zero probe begin_offset cursor = spilled cursor
  probe_layer (suc rounds) probe begin_offset cursor =
      let offset = (begin_offset + probe) % 62 ^ depth in
      let candidate = encode_anchor (slot offset) depth in
      let cursor' = advance cursor depth ((offset + 1) % 62 ^ depth) in
      let rest = probe_layer rounds (probe + 1) begin_offset cursor' in
      if is_numeric_anchor candidate
      then rest
      else if has candidate used
      then rest
      else found (record {
        anchor = candidate;
        stats = record { depth = depth; probes = probe + 1 };
        cursor = cursor';
      })

-- the outer loop: the layers left and `depth`
unfoldable pub allocate_layers : List Text → ℕ → ℕ → ℕ → Option Cursor → Option Allocated
unfolding probe_layer offset_at
allocate_layers used h zero depth cursor = none
allocate_layers used h (suc layers) depth cursor =
    elim (probe_layer used h depth probe_limit 0 (offset_at cursor depth % 62 ^ depth) cursor) [
      | found allocated ↦ some allocated
      | spilled cursor' ↦ allocate_layers used h layers (depth + 1) cursor'
    ]

unfoldable pub allocate_anchor : List Text → Text → Option Cursor → Option Allocated
unfolding content_key allocate_layers
allocate_anchor used content cursor =
    allocate_layers used (content_key content) (max_anchor_depth + 1 - min_anchor_depth)
      min_anchor_depth cursor

first_anchor :
    allocate_anchor [] (codes "abc") none
    ≡ some (record { anchor = codes "z3"; stats = record { depth = 2; probes = 1 }; cursor = none })
unfolding allocate_anchor
first_anchor = refl
