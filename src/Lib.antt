-- ===== src/Lib.antt =====
-- A model of the editing tool's core: how lines get anchors, how anchors survive an edit, how an edit
-- changes the text, which edits of a batch interfere and where they end up, what a session keeps of
-- the anchors it was shown, how a patch is read, how a formatter's edits are applied and how
-- language-server messages are read off a byte stream and matched with writes.
--
-- Files and code:
--   Base/*             what the parts share: lists, Boolean tests, numbers, maps, the stable sort
--   Infra/Lines        src/infra/utils.ts: `splitLines`, `visLines`
--   Hashline/Alloc/*   src/hashline/alloc.ts: `cyrb53`, `encodeAnchor`, `allocateAnchor`,
--                      `assignAnchors`, `allocateInto`, `allocateIntoRows`, `anchorsPure`
--   Hashline/Align/*   src/hashline/align-bounded.ts: `lcsBacktrace`, `blockedAlign`,
--                      `alignPreservedBounded`
--   Edit/Conflicts     src/domain/edit/range-conflicts.ts
--   Lsp/Framing/*      src/lsp/framing.ts: `encodeMessage`, `MessageReader`
--   Patch/*            src/domain/patch/types.ts and parse.ts: `parsePatch` and the scanner below it
--   Lsp/TextEdits/*    src/lsp/format/text-edits.ts: `applyTextEdits`, with `restoreEndings` of
--                      src/render/edit-diff.ts
--   Lsp/WriteTracker/*  src/lsp/write-tracker.ts: `noteDocumentWrite`, `latestWriteFor`,
--                      `markAsyncInjection`, `forgetDocumentWrite`
--   Hashline/Span/*    src/hashline/anchor-pipeline.ts: `buildIdx`, `resToSpan`, `assemble`,
--                      `assertNotEmpty`, `changedRange`
--   Session/ServedCodec/* src/domain/session/served-codec.ts: `encodeServedAnchors`,
--                      `decodeServedAnchors`, with `truncateServedKey` of src/hashline/hash-assign.ts
--   Edit/Batch/*       src/domain/edit/edit-engine.ts: final positions and order in `runFileEdits`,
--                      the counts and the hunk of `applyOne`, `toAnchorHunk`, `countLineChanges`,
--                      `replacedOriginalRanges`
--   Hashline/Declaration/* src/hashline/declaration.ts: `declaredLineMatches`, `verifyExpectedLines`
--   Edit/NoopGuard/*   src/domain/edit/noop-guard.ts: `trackNoopPayload`, `clearNoopLoop`
--   Session/AnchorRows/*  src/domain/session/hash-store.ts: `anchorStateAdapter`
--   Session/AnchorState/* src/domain/session/anchor-state.ts: `ensureStateAt`, `persistAnchorState`,
--                      `updateAnchorsAfterEdit`, `anchorsFor`
--   Session/AnchorEntry/* src/domain/session/anchor-entry.ts: `probeLines`, `anchorFor`, `releaseLines`,
--                      `releaseAnchors`, `restoreAnchorBinding`
--
-- How the parts interact: the line splitting gives the rows that `allocateInto` asks anchors for;
-- an allocation takes the anchors to avoid and one probe cursor per line content, and gives back the
-- anchors and the file's new sparse state. The anchor state loads a path's rows from the
-- store, repairs them and commits them again; the entry point hands out anchors over it, records them
-- in the session's served mirror, which the codec of served anchors stores, and checks an anchor
-- against rows, mirror and text before a write. An edit whose anchors stand for lines is checked against the declared lines and then
-- spliced into the text by offsets; in a batch the conflict detection comes first, and the final
-- positions of its hunks are what the update of the anchors works on. After an edit the alignment says
-- which old line each new line was, by contents. The ledger of writes tells a late report of the
-- language server which write it describes.
--
-- How code becomes a model: a text is the list of its code units, a `Set` the list of its members, a
-- `Map` the list of its entries in insertion order, a cursor object that the source shares and
-- mutates is passed in and out. A thrown error is `none` or a constructor of a result type. Words of
-- 32 bits are written with their wrap-around, and sums and products that can pass 2^53 round as
-- doubles do.
--
-- Bounds and fuel: the probe loops run `PROBE_LIMIT` rounds on seven layers, as in the source. The
-- loop that reads messages has one round more than bytes, and every round that goes on removes at
-- least the four bytes of a header terminator. The loop that writes a number in groups of seven bits has
-- one round more than the number, which at least halves in each. Reading such a number stops where
-- the source's factor passes 2^53 - 1.
--
-- A store is what it holds for one path: the file's row, the lines' rows and whether a notice is
-- pending; a path without a store has none. A thrown error undoes the transaction around it.
--
-- Not modelled: the database below the stores and the views over them, the file system, processes and timers, prompts and cards, syntax trees,
-- the web client. `JSON.parse`, `JSON.stringify`, UTF-8, hexadecimal and
-- Base64 are parameters. Abort signals are taken as not aborted. The log line of
-- `effectiveDpBudget` is left out, and the growth of the caller's own `used` set in
-- `allocateIntoRows` is not returned. The batch keeps hunks whose anchors are not in the snapshot out
-- of the conflict detection; here all hunks of a batch have theirs in it.
pub mod Session
pub mod Base
pub mod Infra
pub mod Hashline
pub mod Edit
pub mod Patch
pub mod Lsp
