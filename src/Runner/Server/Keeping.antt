-- ===== src/Runner/Server/Keeping.antt =====
-- OriginalLinuxCode/QMSP_Runner.c: the blocks that receiving a message allocates and keeps.
use qmsp.Base.{ℕ, ◌≡◌, ◌≤◌, refl, sym, ◌∙◌, arith, List, [], ◌∷◌, ◌++◌, some, ◌==◌, if◌then◌else◌}
use mathlib.Core.Path.{subst}
use mathlib.Core.Option.{some-injective}
use qmsp.Runner.{Entry, block_kept}
use qmsp.Runner.Replay.{
  replay-append, count-append, block_role, stream_role, connection_role, turn, replay, count,
  begins_block, completes, begins_stream, ends_stream, begins_connection, ends_connection, Turns,
}
use qmsp.Runner.Server.{kept_blocks}
use qmsp.Runner.Server.History.{Unused, KeptFit}

-- Blocks are neither streams nor connections.
pub kept-idle_streams :
    (bs : List ℕ) (x n : ℕ)
    → n ≤ 1
    → Turns stream_role begins_stream ends_stream (kept_blocks bs) x n
unfolding replay turn stream_role count begins_stream ends_stream
kept-idle_streams [] x n small = record {
  after = n;
  turned = refl;
  still_once = small;
  moved = omega arith;
}
kept-idle_streams (b ∷ bs) x n small =
    let t = kept-idle_streams bs x n small in
    record {
      after = t.after;
      turned = t.turned;
      still_once = t.still_once;
      moved = omega (arith, t.moved);
    }

pub kept-idle_connections :
    (bs : List ℕ) (x n : ℕ)
    → n ≤ 1
    → Turns connection_role begins_connection ends_connection (kept_blocks bs) x n
unfolding replay turn connection_role count begins_connection ends_connection
kept-idle_connections [] x n small = record {
  after = n;
  turned = refl;
  still_once = small;
  moved = omega arith;
}
kept-idle_connections (b ∷ bs) x n small =
    let t = kept-idle_connections bs x n small in
    record {
      after = t.after;
      turned = t.turned;
      still_once = t.still_once;
      moved = omega (arith, t.moved);
    }

-- A block that is not in use is allocated to be kept.
keeping :
    (b : ℕ) (x n : ℕ)
    → n ≤ 1
    → (b ≡ x → n ≡ 0)
    → Turns block_role begins_block completes (block_kept b ∷ []) x n
unfolding replay turn block_role count begins_block completes
keeping b x n small unused = record {
  after = if b == x then 1 else n;
  turned = ground (arith, unused);
  still_once = ground arith;
  moved = ground (arith, unused);
}

-- Blocks that are not in use, each when its turn comes, are allocated to be kept.
pub kept_blocks-Turns :
    (h : List Entry) (bs : List ℕ) (x n : ℕ)
    → replay block_role x 0 h ≡ some n
    → n ≤ 1
    → KeptFit h bs
    → Turns block_role begins_block completes (kept_blocks bs) x n
unfolding replay count
kept_blocks-Turns h [] x n replayed small fits = record {
  after = n;
  turned = refl;
  still_once = small;
  moved = omega arith;
}
kept_blocks-Turns h (b ∷ bs) x n replayed small (unused, fits) =
    let first =
      keeping b x n small
        (λ same. some-injective n 0 (sym replayed ∙ subst (Unused block_role h) same unused)) in
    let rest =
      kept_blocks-Turns (h ++ (block_kept b ∷ [])) bs x first.after
        (replay-append block_role x 0 n h (block_kept b ∷ []) replayed ∙ first.turned)
        first.still_once fits in
    record {
      after = rest.after;
      turned =
          replay-append block_role x n first.after (block_kept b ∷ []) (kept_blocks bs) first.turned
          ∙ rest.turned;
      still_once = rest.still_once;
      moved = omega (
        arith,
        first.moved,
        rest.moved,
        count-append (completes x) (block_kept b ∷ []) (kept_blocks bs),
        count-append (begins_block x) (block_kept b ∷ []) (kept_blocks bs),
      );
    }
