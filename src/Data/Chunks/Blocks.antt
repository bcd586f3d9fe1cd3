-- ===== src/Data/Chunks/Blocks.antt =====
-- What the goroutines of `startChunkSource` in data/source.go write.
use mrtp.Prelude.{
  ℕ, zero, suc, ◌+◌, ◌*◌, ◌≤◌, ◌≡◌, ◌≢◌, ◌⊎◌, inl, inr, refl, List, [], ◌∷◌, true, Option, none,
  some, Option-cases, Bool-cases, length, length-append, ltb, get_elem?, arith,
}
use mrtp.Data.Bytes.{put_uint64}
use mrtp.Data.Bin.{SourceError, World, DataBin}
use mrtp.Data.Source.{Turn, goes_on, ends}
use mrtp.Data.Works.{Works}
use mrtp.Data.Chunks.{
  Position, starting, limiting, writing, done, chunks, blocks_of_chunk, block_size, zeros,
  ChunkSource, all_done, step_at, step_from, step_goroutine, start_goroutine, cancel_chunks,
  finish_chunks, ChunkEvent, starts, steps, cancels, finishes, chunk_event, run_chunks,
  start_chunk_source,
}
use mrtp.Data.Chunks.Messages.{
  Consists, empty, and_size, and_block, sizes_left, blocks_left, sum, sum-set_at, sum-append,
  sum-all_done, sum-left, length-set_at, get_elem?-all_done, zeros-are_zero, length-zeros,
  put_uint64-size_header,
}

module _ {W : Type 0} (world : World W) (file : W → List ℕ) (sent : W → List (List ℕ))
    (works : Works world file sent) where
  -- What has been written, before and after a step from `p` to `q`.
  record Counts (h b : ℕ) (p q : Position) (w : W) : Type 0 where
    sizes : ℕ
    blocks : ℕ
    consists : Consists sizes blocks (sent w)
    same_sizes : sizes + sizes_left q ≡ h + sizes_left p
    same_blocks : blocks + blocks_left q ≡ b + blocks_left p

  step_at-Counts :
      (d : DataBin) (p : Position) (w : W) (h b : ℕ)
      → Consists h b (sent w)
      → (let x = step_at world d p w in Counts h b p x.0 x.1)
  unfolding step_at
  step_at-Counts d starting w h b c =
      let size = put_uint64 (blocks_of_chunk * block_size) in
      let (e, (f, s)) = works.never_done w in
      let (e', (f', s')) = works.write_ok size (world.is_done w).0 in
      simp (step_at, e, e')
        record {
          sizes = suc h;
          blocks = b;
          consists = rw (s', s, put_uint64-size_header) (and_size c);
          same_sizes = omega arith;
          same_blocks = omega arith;
        }
  step_at-Counts d limiting w h b c = elim (Option-cases d.rate_limiter) [
    | inl n ↦
        simp (step_at, n)
          record { sizes = h; blocks = b; consists = c; same_sizes = refl; same_blocks = refl }
    | inr (l, n) ↦
        let (e, (f, s)) = works.wait_ok block_size w in
        simp (step_at, n, e)
          record { sizes = h; blocks = b; consists = rw s c; same_sizes = refl; same_blocks = refl }
  ]
  step_at-Counts d (writing zero) w h b c = record {
    sizes = h;
    blocks = b;
    consists = c;
    same_sizes = refl;
    same_blocks = refl;
  }
  step_at-Counts d (writing (suc n)) w h b c =
      let block = zeros block_size in
      let (e, (f, s)) = works.never_done w in
      let (e', (f', s')) = works.write_ok block (world.is_done w).0 in
      simp (step_at, e, e')
        record {
          sizes = h;
          blocks = suc b;
          consists =
              rw (s', s) (and_block block c (length-zeros block_size, zeros-are_zero block_size));
          same_sizes = omega arith;
          same_blocks = omega arith;
        }
  step_at-Counts d done w h b c = record {
    sizes = h;
    blocks = b;
    consists = c;
    same_sizes = refl;
    same_blocks = refl;
  }

  record Inv (s : ChunkSource W) : Type 0 where
    sizes : ℕ
    blocks : ℕ
    consists : Consists sizes blocks (sent s.world_state)
    all_sizes : sizes + sum sizes_left s.goroutines ≡ length s.goroutines
    all_blocks : blocks + sum blocks_left s.goroutines ≡ 100 * length s.goroutines
    few : length s.goroutines ≤ chunks
    over : (s.turn ≢ ends none) ⊎ ((all_done s.goroutines ≡ true) × (length s.goroutines ≡ chunks))

  step_from-Inv :
      (i : ℕ) (p : Position) (s : ChunkSource W)
      → get_elem? s.goroutines i ≡ some p
      → p ≢ done
      → Inv s
      → Inv (step_from world i p s)
  step_from-Inv i p s g going h =
      let q = (step_at world s.bin p s.world_state).0 in
      let c = step_at-Counts s.bin p s.world_state h.sizes h.blocks h.consists in
      record {
        sizes = c.sizes;
        blocks = c.blocks;
        consists = c.consists;
        all_sizes =
            rw (length-set_at s.goroutines i q) (
              omega (arith, h.all_sizes, c.same_sizes, sum-set_at sizes_left s.goroutines i p q g));
        all_blocks = rw (length-set_at s.goroutines i q) (
            omega
              (arith, h.all_blocks, c.same_blocks, sum-set_at blocks_left s.goroutines i p q g));
        few = rw (length-set_at s.goroutines i q) h.few;
        over = elim h.over [
          | inl t ↦ inl t
          | inr (e, l) ↦ absurd (going (get_elem?-all_done s.goroutines i p e g))
        ];
      }

  step_goroutine-Inv : (i : ℕ) (s : ChunkSource W) → Inv s → Inv (step_goroutine world i s)
  unfolding step_goroutine
  step_goroutine-Inv i s h = elim (Option-cases (get_elem? s.goroutines i)) [
    | inl e ↦ simp (step_goroutine, e) h
    | inr (done, e) ↦ simp (step_goroutine, e) h
    | inr (starting, e) ↦ simp (step_goroutine, e) (step_from-Inv i starting s e (λ x. cc) h)
    | inr (limiting, e) ↦ simp (step_goroutine, e) (step_from-Inv i limiting s e (λ x. cc) h)
    | inr (writing n, e) ↦ simp (step_goroutine, e) (step_from-Inv i (writing n) s e (λ x. cc) h)
  ]

  start_goroutine-Inv :
      (s : ChunkSource W) → s.turn ≢ ends none → Inv s → Inv (start_goroutine world s)
  unfolding start_goroutine
  start_goroutine-Inv s t h = elim (Bool-cases (ltb (length s.goroutines) chunks)) [
    | inl e ↦ simp (e) record {
      sizes = h.sizes;
      blocks = h.blocks;
      consists = h.consists;
      all_sizes =
          rw
            (
              sum-append sizes_left s.goroutines starting,
              length-append s.goroutines (starting ∷ []),
            )
            (omega (arith, h.all_sizes));
      all_blocks =
          rw
            (
              sum-append blocks_left s.goroutines starting,
              length-append s.goroutines (starting ∷ []),
            )
            (omega (arith, h.all_blocks));
      few = rw (length-append s.goroutines (starting ∷ [])) (ground (arith, e));
      over = inl t;
    }
    | inr e ↦ simp (e) h
  ]

  cancel_chunks-Inv : (s : ChunkSource W) → Inv s → Inv (cancel_chunks world s)
  unfolding cancel_chunks
  cancel_chunks-Inv s h = elim (Bool-cases (ltb (length s.goroutines) chunks)) [
    | inl e ↦ simp (e) record {
      sizes = h.sizes;
      blocks = h.blocks;
      consists = rw ((works.close_ok s.world_state).1) h.consists;
      all_sizes = h.all_sizes;
      all_blocks = h.all_blocks;
      few = h.few;
      over = inl (λ e. cc);
    }
    | inr e ↦ simp (e) h
  ]

  finish_chunks-Inv : (s : ChunkSource W) → Inv s → Inv (finish_chunks world s)
  unfolding finish_chunks
  finish_chunks-Inv s h = elim (Bool-cases (ltb (length s.goroutines) chunks)) [
    | inl e ↦ simp (e) h
    | inr e ↦ elim (Bool-cases (all_done s.goroutines)) [
      | inl e' ↦
          simp (e, e')
            record {
              sizes = h.sizes;
              blocks = h.blocks;
              consists = rw ((works.close_ok s.world_state).1) h.consists;
              all_sizes = h.all_sizes;
              all_blocks = h.all_blocks;
              few = h.few;
              over = inr (e', ground (arith, e, h.few));
            }
      | inr e' ↦ simp (e, e') h
    ]
  ]

  Turn-cases : (t : Turn) → (t ≡ goes_on) ⊎ ((e : Option SourceError) × (t ≡ ends e))
  Turn-cases goes_on = inl refl
  Turn-cases (ends e) = inr (e, refl)

  chunk_event-Inv : (e : ChunkEvent) (s : ChunkSource W) → Inv s → Inv (chunk_event world e s)
  unfolding chunk_event
  chunk_event-Inv (steps i) s h = step_goroutine-Inv i s h
  chunk_event-Inv starts s h = elim (Turn-cases s.turn) [
    | inl e ↦ simp (chunk_event, e) (start_goroutine-Inv s (λ x. cc) h)
    | inr (x, e) ↦ simp (chunk_event, e) h
  ]
  chunk_event-Inv cancels s h = elim (Turn-cases s.turn) [
    | inl e ↦ simp (chunk_event, e) (cancel_chunks-Inv s h)
    | inr (x, e) ↦ simp (chunk_event, e) h
  ]
  chunk_event-Inv finishes s h = elim (Turn-cases s.turn) [
    | inl e ↦ simp (chunk_event, e) (finish_chunks-Inv s h)
    | inr (x, e) ↦ simp (chunk_event, e) h
  ]

  run_chunks-Inv : (es : List ChunkEvent) (s : ChunkSource W) → Inv s → Inv (run_chunks world es s)
  unfolding run_chunks
  run_chunks-Inv [] s h = h
  run_chunks-Inv (e ∷ es) s h = run_chunks-Inv es (chunk_event world e s) (chunk_event-Inv e s h)

-- Where no call fails, whatever the order in which the goroutines take their steps and are started: each
-- message written is the size of a chunk, which is 100000 as eight bytes, or a block of a thousand zeros;
-- there are at most 15 sizes, and at most a hundred blocks for each of them; and once
-- `startChunkSource` has returned with no error, it has written 15 sizes and 1500 blocks.
pub start_chunk_source-Consists :
    {W : Type 0} (world : World W) (file : W → List ℕ) (sent : W → List (List ℕ))
    (es : List ChunkEvent) (d : DataBin) (w : W)
    → Works world file sent
    → d.has_wc ≡ true
    → sent w ≡ []
    → (let x = start_chunk_source world es d w in
        (sizes : ℕ) × ((blocks : ℕ) × (Consists sizes blocks (sent x.world_state)
            × ((sizes ≤ 15)
                × ((blocks ≤ 100 * sizes)
                    × ((x.turn ≢ ends none) ⊎ ((sizes ≡ 15) × (blocks ≡ 1500))))))))
unfolding start_chunk_source
start_chunk_source-Consists {W = W} world file sent es d w works has fresh =
    let s : ChunkSource W = record { bin = d; goroutines = []; turn = goes_on; world_state = w } in
    let start : Inv world file sent works s = record {
      sizes = 0;
      blocks = 0;
      consists = rw fresh empty;
      all_sizes = refl;
      all_blocks = refl;
      few = omega arith;
      over = inl (λ e. cc);
    } in
    let v = run_chunks-Inv world file sent works es s start in
    let gs = (run_chunks world es s).goroutines in
    let at_most = v.few in
    simp (start_chunk_source, has)
      (
        v.sizes,
        (
          v.blocks,
          (
            v.consists,
            (
              omega (arith, v.all_sizes, at_most),
              (
                omega (arith, v.all_sizes, v.all_blocks, sum-left gs),
                elim v.over [
                  | inl t ↦ inl t
                  | inr (e, l) ↦ inr (
                    omega (arith, v.all_sizes, l, sum-all_done sizes_left gs refl e),
                    omega (arith, v.all_blocks, l, sum-all_done blocks_left gs refl e),
                  )
                ],
              ),
            ),
          ),
        ),
      )
