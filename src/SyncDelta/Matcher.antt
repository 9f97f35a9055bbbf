-- ===== src/SyncDelta/Matcher.antt =====
-- crates/sync-delta/src/matcher.rs: the sender's sliding-window matcher. The table of signatures
-- and the choice of a block are in `Matcher/Table`; the proofs are in the other children.
pub mod Table
pub mod Scan
pub mod Slide
pub mod Process
pub mod Feed
pub mod Stream
pub mod Pieces
use terrasync_rs.Base.{
  ℕ, zero, suc, ◌+◌, ◌-◌, ◌*◌, Bool, true, false, List, [], ◌∷◌, ◌++◌, Option, none, some, map,
  length, drop, slice, get_or, chunks, ltb, leb, ◌==◌, if◌then◌else◌, u64,
}
use terrasync_rs.SyncDelta.Rolling.{RollingChecksum, digest, init, update}
use terrasync_rs.SyncDelta.Rolling
use terrasync_rs.SyncDelta.Tokens.{BlockSignature, DeltaToken, match_block, data_bytes}
use Table.{SigTable, build_sig_table, selected}

-- The size at which a run of literals is sent on: 1 MiB.
abbrev pub literal_limit : ℕ
literal_limit = 1024 * 1024

pub record DeltaMatcher : Type 0 where
  pub sig_table : SigTable
  pub bs : ℕ
  pub signatures : List BlockSignature
  pub consumed : ℕ
  pub carry : List ℕ
  pub pos : ℕ
  pub rc : RollingChecksum
  pub window_init : Bool
  pub literal_buf : List ℕ

unfoldable pub new : List BlockSignature → ℕ → DeltaMatcher
unfolding build_sig_table Rolling.new
new signatures block_size = record {
  sig_table = build_sig_table signatures;
  bs = block_size;
  signatures = signatures;
  consumed = 0;
  carry = [];
  pos = 0;
  rc = Rolling.new;
  window_init = false;
  literal_buf = [];
}

-- `!literal_buf.is_empty()` flushes one `Data` token.
unfoldable pub flush_literal : List ℕ → List DeltaToken
flush_literal [] = []
flush_literal (x ∷ xs) = data_bytes (x ∷ xs) ∷ []

-- The window at `pos`.
abbrev pub window : DeltaMatcher → List ℕ
window m = slice m.pos (m.pos + m.bs) m.carry

-- The lazy initialisation at the top of the loop.
unfoldable pub init_window : DeltaMatcher → DeltaMatcher
unfolding init Rolling.new
init_window m =
    if m.window_init then m else record m { rc = init Rolling.new (window m); window_init = true }

-- The branch of a match.
unfoldable pub accept : ℕ → DeltaMatcher → List DeltaToken × DeltaMatcher
unfolding flush_literal
accept block_idx m = (
  flush_literal m.literal_buf ++ match_block block_idx ∷ [],
  record m { literal_buf = []; pos = m.pos + m.bs; window_init = false },
)

-- The literal buffer with one more byte, or its token if that fills it.
unfoldable pub push_literal : List ℕ → ℕ → List DeltaToken × List ℕ
push_literal literal_buf byte =
    let filled = literal_buf ++ byte ∷ [] in
    if leb literal_limit (length filled) then (data_bytes filled ∷ [], []) else ([], filled)

-- The slide of the window that starts at `pos`, or its end if the bytes run out.
unfoldable pub slide : DeltaMatcher → DeltaMatcher
unfolding update
slide m =
    if leb (m.pos + m.bs) (length m.carry)
    then record m {
      rc = update m.rc (get_or m.carry (m.pos - 1) 0) (get_or m.carry (m.pos + m.bs - 1) 0) m.bs;
    }
    else record m { window_init = false }

-- The branch of no match: the byte at `pos` becomes a literal.
unfoldable pub skip : DeltaMatcher → List DeltaToken × DeltaMatcher
unfolding push_literal slide
skip m =
    let (tokens, literal_buf) = push_literal m.literal_buf (get_or m.carry m.pos 0) in
    (tokens, slide (record m { literal_buf = literal_buf; pos = m.pos + 1 }))

-- What the loop's body does after the window is initialised.
unfoldable pub decide : DeltaMatcher → Option ℕ → List DeltaToken × DeltaMatcher
unfolding accept skip
decide m none = skip m
decide m (some block_idx) = accept block_idx m

-- Drops the processed prefix of `carry`. `consumed` is a `u64`.
unfoldable pub compact : DeltaMatcher → DeltaMatcher
compact m =
    if ltb 0 m.pos
    then record m { consumed = u64 (m.consumed + m.pos); carry = drop m.pos m.carry; pos = 0 }
    else m

-- The tail of `finish`: the bytes left over become literals, in tokens of 1 MiB at most.
unfoldable pub finish_literal : DeltaMatcher → List DeltaToken × DeltaMatcher
unfolding chunks
finish_literal m =
    let literal_buf =
      if ltb m.pos (length m.carry) then m.literal_buf ++ drop m.pos m.carry else m.literal_buf in
    (
      map data_bytes (chunks literal_limit literal_buf),
      record m { carry = []; pos = 0; literal_buf = [] },
    )

module _ (blake3 : List ℕ → List ℕ) where
  -- The body of the loop in `process`: the tokens that it pushes, and the new state.
  unfoldable pub process_round : DeltaMatcher → List DeltaToken × DeltaMatcher
  unfolding init_window decide digest selected
  process_round m =
      let w = init_window m in
      decide w (
        selected blake3 w.sig_table w.signatures w.bs (u64 (w.consumed + w.pos)) (digest w.rc)
          (window w))

  -- `while pos + bs <= carry.len()`. Fuel: a round moves `pos` on.
  unfoldable pub process_loop : ℕ → DeltaMatcher → List DeltaToken × DeltaMatcher
  process_loop zero m = ([], m)
  process_loop (suc fuel) m = elim (leb (m.pos + m.bs) (length m.carry)) [
    | true ↦
        let (tokens, next) = process_round m in
        let (rest, last) = process_loop fuel next in (tokens ++ rest, last)
    | false ↦ ([], m)
  ]

  unfoldable pub process : DeltaMatcher → List DeltaToken × DeltaMatcher
  unfolding process_loop process_round
  process m = process_loop (length m.carry) m

  unfoldable pub push : DeltaMatcher → List ℕ → List DeltaToken × DeltaMatcher
  unfolding process compact
  push m bytes =
      if m.bs == 0
      then ([], record m { literal_buf = m.literal_buf ++ bytes })
      else let (tokens, next) = process (record m { carry = m.carry ++ bytes }) in
        (tokens, compact next)

  unfoldable pub finish : DeltaMatcher → List DeltaToken × DeltaMatcher
  unfolding process finish_literal
  finish m =
      let (tokens, next) = if m.bs == 0 then ([], m) else process m in
      let (rest, last) = finish_literal next in (tokens ++ rest, last)

  unfoldable pub delta_match : List ℕ → List BlockSignature → ℕ → List DeltaToken
  unfolding new push finish
  delta_match src_bytes signatures block_size =
      let (tokens, next) = push (new signatures block_size) src_bytes in tokens ++ (finish next).0
