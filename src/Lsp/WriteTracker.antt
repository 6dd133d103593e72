-- ===== src/Lsp/WriteTracker.antt =====
-- src/lsp/write-tracker.ts: the newest write of each document. The module's variables are a record;
-- `writes` is a list of entries, the oldest first. Sizes are in UTF-16 code units, as `text.length` is.
pub mod Entries
pub mod Bounded
pub mod Latest
mod Examples
use dsh_hashline_edittool.Base.{
  ℕ, suc, ◌+◌, ◌-◌, ◌*◌, ◌^◌, Bool, true, false, ◌||◌, List, [], ◌∷◌, ◌++◌, Option, none, some, ltb,
  ◌==◌, if◌then◌else◌, length, Text, text_eq,
}
use dsh_hashline_edittool.Base.Map

pub record TrackedWrite : Type 0 where
  pub generation : ℕ
  pub write_number : ℕ
  pub text : Text
  pub had_async_injection : Bool

abbrev pub max_tracked : ℕ
max_tracked = 256

-- The source compares it with sums of `text.length`, so it counts UTF-16 code units, as `held_bytes` does.
abbrev pub max_bytes : ℕ
max_bytes = 16 * 1024 * 1024

abbrev pub Writes : Type 0
Writes = List (Text × TrackedWrite)

pub record Ledger : Type 0 where
  pub next_generation : ℕ
  pub writes : Writes
  pub held_bytes : ℕ

unfoldable pub empty : Ledger
empty = record { next_generation = 0; writes = []; held_bytes = 0 }

-- the text length of an entry that leaves the map
abbrev pub freed : Option TrackedWrite → ℕ
freed none = 0
freed (some write) = length write.text

abbrev pub number_of : Option TrackedWrite → ℕ
number_of none = 0
number_of (some write) = write.write_number

abbrev pub warned : Option TrackedWrite → Bool
warned none = false
warned (some write) = write.had_async_injection

-- the loop that drops the oldest entries
unfoldable pub evict : Writes → ℕ → Writes × ℕ
evict [] held = ([], held)
evict ((uri, write) ∷ writes) held =
    let rest = evict writes (held - length write.text) in
    if ltb max_tracked (length ((uri, write) ∷ writes)) || ltb max_bytes held
    then rest
    else ((uri, write) ∷ writes, held)

-- the write that a call creates
unfoldable pub new_write : Ledger → Text → Text → TrackedWrite
unfolding Map.get
new_write s uri text = record {
  generation = suc s.next_generation;
  write_number = number_of (Map.get s.writes uri) + 1;
  text = text;
  had_async_injection = warned (Map.get s.writes uri);
}

-- the entries and their size before the loop drops any
unfoldable pub entered : Ledger → Text → Text → Writes × ℕ
unfolding new_write Map.get Map.delete
entered s uri text = (
  Map.delete s.writes uri ++ (uri, new_write s uri text) ∷ [],
  s.held_bytes - freed (Map.get s.writes uri) + length text,
)

unfoldable pub note_document_write : Ledger → Text → Text → TrackedWrite × Ledger
unfolding entered evict
note_document_write s uri text =
    let (writes, held) = evict (entered s uri text).0 (entered s uri text).1 in
    (
      new_write s uri text,
      record { next_generation = suc s.next_generation; writes = writes; held_bytes = held },
    )

unfoldable pub latest_write_for : Ledger → Text → Option TrackedWrite
unfolding Map.get
latest_write_for s uri = Map.get s.writes uri

unfoldable pub mark_async_injection : Ledger → Text → ℕ → Ledger
unfolding Map.get Map.put
mark_async_injection s uri generation = elim (Map.get s.writes uri) [
  | none ↦ s
  | some current ↦
      if current.generation == generation
      then record s {
        writes = Map.put s.writes uri (record current { had_async_injection = true });
      }
      else s
]

unfoldable pub forget_document_write : Ledger → Text → Ledger
unfolding Map.get Map.delete
forget_document_write s uri = record s {
  writes = Map.delete s.writes uri;
  held_bytes = s.held_bytes - freed (Map.get s.writes uri);
}

-- One call of the module, and any number of them.
pub data Step (s : Ledger) : Ledger → Type 0 where
  noted : (uri text : Text) → Step s (note_document_write s uri text).1
  marked : (uri : Text) (generation : ℕ) → Step s (mark_async_injection s uri generation)
  forgotten : (uri : Text) → Step s (forget_document_write s uri)

pub data Reach (s : Ledger) : Ledger → Type 0 where
  here : Reach s s
  next : {t u : Ledger} → Reach s t → Step t u → Reach s u
