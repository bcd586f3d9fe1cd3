-- ===== src/Data/Sending.antt =====
-- What the file source of data/source.go writes when nothing fails.
use mrtp.Prelude.{
  ℕ, zero, suc, ◌+◌, ◌^◌, ◌%◌, ◌<◌, ◌≡◌, inl, inr, refl, sym, ap, ◌∙◌, List, [], ◌∷◌, ◌++◌,
  append_assoc, append-nil, true, false, none, All, length, length-append, Bool-cases, Option-cases,
  List-cases, arith,
}
use mrtp.Prelude.Int.{pos, ltb_ℤ}
use mrtp.Data.Bytes.{put_uint64}
use mrtp.Data.Bin.{read_ok, World, DataBin}
use mrtp.Data.Works.{concat, IsBlock, Works}
use mrtp.Data.Source.{
  Turn, goes_on, ends, stopped, check_context, wait_limiter, after_read, send_read, file_turn, loop,
  send_size, start_file_source, start_source,
}
use mrtp.Data.Chunks.{ChunkEvent}
use mrtp.Data.Run.{run_source}

module _ {W : Type 0} (world : World W) (file : W → List ℕ) (sent : W → List (List ℕ))
    (works : Works world file sent) where
  -- The state in which a turn reads the file.
  abbrev reading : DataBin → W → W
  reading d w = (wait_limiter world d 1024 (check_context world d w).0).0

  context-passes :
      (d : DataBin) (w : W)
      → (let x = check_context world d w in
          (x.1 ≡ goes_on) × ((file x.0 ≡ file w) × (sent x.0 ≡ sent w)))
  context-passes d w = rw (check_context, (works.never_done w).0) (refl, (works.never_done w).1)

  limiter-passes :
      (d : DataBin) (n : ℕ) (w : W)
      → (let x = wait_limiter world d n w in
          (x.1 ≡ goes_on) × ((file x.0 ≡ file w) × (sent x.0 ≡ sent w)))
  limiter-passes d n w = elim (Option-cases d.rate_limiter) [
    | inl e ↦ rw e (refl, (refl, refl))
    | inr (l, e) ↦ rw (e, (works.wait_ok n w).0) (refl, (works.wait_ok n w).1)
  ]

  reading_same :
      (d : DataBin) (w : W) → (file (reading d w) ≡ file w) × (sent (reading d w) ≡ sent w)
  reading_same d w =
      let (e, (d_file, d_sent)) = context-passes d w in
      let (p, (l_file, l_sent)) = limiter-passes d 1024 (check_context world d w).0 in
      (l_file ∙ d_file, l_sent ∙ d_sent)

  file_turn_reads :
      (d : DataBin) (w : W)
      → file_turn world d w
        ≡ (let x = world.read_file 1024 (reading d w) in send_read world x.1.0 x.1.1 x.0)
  unfolding file_turn
  file_turn_reads d w =
      let e = (context-passes d w).0 in
      let p = (limiter-passes d 1024 (check_context world d w).0).0 in rw (file_turn, e, p) refl

  file_turn_ends :
      (d : DataBin) (w : W)
      → file w ≡ []
      → (let x = file_turn world d w in (x.1 ≡ ends none) × (sent x.0 ≡ sent w))
  unfolding send_read after_read
  file_turn_ends d w f =
      let (same_file, same_sent) = reading_same d w in
      let (r, s) = works.read_end 1024 (reading d w) (same_file ∙ f) in
      let (c, t) = works.close_ok (world.read_file 1024 (reading d w)).0 in
      rw (file_turn_reads d w, r, c) (refl, t ∙ s ∙ same_sent)

  record Went (d : DataBin) (w : W) : Type 0 where
    block : List ℕ
    goes : (file_turn world d w).1 ≡ goes_on
    is_block : IsBlock block
    from_file : file w ≡ block ++ file (file_turn world d w).0
    to_sent : sent (file_turn world d w).0 ≡ sent w ++ block ∷ []

  send_block :
      (b : List ℕ) (w : W)
      → 0 < length b
      → (let x = send_read world b read_ok w in
          (x.1 ≡ goes_on) × ((file x.0 ≡ file w) × (sent x.0 ≡ sent w ++ b ∷ [])))
  unfolding send_read after_read
  send_block [] w h = absurd (omega (arith, h))
  send_block (x ∷ b) w h = rw ((works.write_ok (x ∷ b) w).0) (refl, (works.write_ok (x ∷ b) w).1)

  file_turn_goes : (d : DataBin) (w : W) → 0 < length (file w) → Went d w
  file_turn_goes d w f =
      let (same_file, same_sent) = reading_same d w in
      let (b, (r, (is_block, (left, s)))) =
        works.read_some 1024 (reading d w) (omega arith) (rw same_file f) in
      let w' = (world.read_file 1024 (reading d w)).0 in
      let (g, (k_file, k_sent)) = send_block b w' is_block.0 in
      let e : file_turn world d w ≡ send_read world b read_ok w' =
        file_turn_reads d w ∙ rw r refl in
      record {
        block = b;
        goes = rw e g;
        is_block = is_block;
        from_file = rw (e, k_file) (sym same_file ∙ left);
        to_sent = rw (e, k_sent, s, same_sent) refl;
      }

  record Sends (d : DataBin) (fuel : ℕ) (w : W) : Type 0 where
    pub blocks : List (List ℕ)
    pub returns : (loop world (file_turn world) fuel d w).1 ≡ ends none
    pub stops : (loop world (file_turn world) fuel d w).0.0 ≡ stopped d
    pub are_blocks : All IsBlock blocks
    pub whole : concat blocks ≡ file w
    pub in_order : sent (loop world (file_turn world) fuel d w).0.1 ≡ sent w ++ blocks

  loop-file_turn : (fuel : ℕ) (d : DataBin) (w : W) → length (file w) < fuel → Sends d fuel w
  unfolding loop
  loop-file_turn zero d w enough = absurd (omega (arith, enough))
  loop-file_turn (suc fuel) d w enough = elim (List-cases (file w)) [
    | inl f ↦
        let (e, s) = file_turn_ends d w f in
        record {
          blocks = [];
          returns = rw (loop, e) refl;
          stops = rw (loop, e) refl;
          are_blocks = tt;
          whole = sym f;
          in_order = rw (loop, e, s) (sym (append-nil (sent w)));
        }
    | inr (b, (bs, f)) ↦
        let t = file_turn_goes d w (rw f (omega arith)) in
        let shorter : length (file w) ≡ length t.block + length (file (file_turn world d w).0) =
          ap length t.from_file ∙ length-append t.block (file (file_turn world d w).0) in
        let rest =
          loop-file_turn fuel d (file_turn world d w).0
            (omega (arith, enough, shorter, t.is_block.0)) in
        record {
          blocks = t.block ∷ rest.blocks;
          returns = rw (loop, t.goes) rest.returns;
          stops = rw (loop, t.goes) rest.stops;
          are_blocks = (t.is_block, rest.are_blocks);
          whole = rw rest.whole (sym t.from_file);
          in_order =
              rw (loop, t.goes)
                (rest.in_order ∙ rw t.to_sent (append_assoc (sent w) (t.block ∷ []) rest.blocks));
        }
  ]

  -- The first message is the size; the others are the file.
  pub record SendsFile (w : W) (x : (DataBin × W) × Turn) : Type 0 where
    pub blocks : List (List ℕ)
    pub returns : x.1 ≡ ends none
    pub not_running : x.0.0.running ≡ false
    pub are_blocks : All IsBlock blocks
    pub whole : concat blocks ≡ file w
    pub in_order : sent x.0.1 ≡ sent w ++ put_uint64 (length (file w) % 2 ^ 64) ∷ blocks

  start_file_source_sends :
      (fuel : ℕ) (d : DataBin) (w : W)
      → d.has_wc ≡ true
      → length (file w) < fuel
      → SendsFile w (start_file_source world fuel d w)
  unfolding start_file_source send_size
  start_file_source_sends fuel d w has enough =
      let (o, (o_file, o_sent)) = works.open_ok d.filepath w in
      let w1 = (world.open_file d.filepath w).0 in
      let (n, (n_file, n_sent)) = works.size_ok w1 in
      let w2 = (world.file_size w1).0 in
      let size = put_uint64 (length (file w1) % 2 ^ 64) in
      let (k, (k_file, k_sent)) = works.write_ok size w2 in
      let w3 = (world.write size w2).0 in
      let same : file w3 ≡ file w = k_file ∙ n_file ∙ o_file in
      let s = loop-file_turn fuel d w3 (rw same enough) in
      rw (start_file_source, has, o, n, send_size, k)
        record {
          blocks = s.blocks;
          returns = s.returns;
          not_running = rw s.stops refl;
          are_blocks = s.are_blocks;
          whole = s.whole ∙ same;
          in_order =
              s.in_order
              ∙ ap (λ l. l ++ s.blocks) (k_sent ∙ ap (λ l. l ++ size ∷ []) (n_sent ∙ o_sent))
              ∙ append_assoc (sent w) (size ∷ []) s.blocks
              ∙ ap (λ f. sent w ++ put_uint64 (length f % 2 ^ 64) ∷ s.blocks) o_file;
        }

  start_source_sends :
      (fuel : ℕ) (d : DataBin) (w : W)
      → d.has_wc ≡ true
      → d.use_file_src ≡ true
      → length (file w) < fuel
      → SendsFile w (start_source world fuel d w)
  unfolding start_source
  start_source_sends fuel d w has use_file enough =
      simp (use_file) (
        start_file_source_sends fuel (record d { use_file_src = true; running = true }) w has
          enough)

  pub run_source_sends :
      (fuel : ℕ) (es : List ChunkEvent) (d : DataBin) (w : W)
      → d.has_wc ≡ true
      → d.use_chunk_src ≡ false
      → d.use_file_src ≡ true
      → length (file w) < fuel
      → SendsFile w (run_source world fuel es d w)
  unfolding run_source
  run_source_sends fuel es d w has no_chunks use_file enough =
      elim (Bool-cases (ltb_ℤ (pos 0) d.start_delay)) [
        | inl e ↦
            let (k, (k_file, k_sent)) = works.sleep_ok d.start_delay w in
            let s =
              start_source_sends fuel d (world.sleep d.start_delay w).0 has use_file
                (rw k_file enough) in
            simp (run_source, no_chunks, e, k)
              record {
                blocks = s.blocks;
                returns = s.returns;
                not_running = s.not_running;
                are_blocks = s.are_blocks;
                whole = s.whole ∙ k_file;
                in_order =
                    s.in_order
                    ∙ rw k_sent
                        (ap (λ f. sent w ++ put_uint64 (length f % 2 ^ 64) ∷ s.blocks) k_file);
              }
        | inr e ↦ simp (run_source, no_chunks, e) (start_source_sends fuel d w has use_file enough)
      ]
