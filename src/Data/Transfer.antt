-- ===== src/Data/Transfer.antt =====
-- The file source of data/source.go and the sink of data/sink.go, over a transport of messages.
use mrtp.Prelude.{
  ℕ, ◌+◌, ◌%◌, ◌^◌, ◌≤◌, ◌<◌, ◌≡◌, refl, sym, ap, ◌∙◌, List, [], ◌∷◌, append-nil, Bool, true, false,
  none, All, length, All-map, length-append, arith,
}
use mrtp.Data.Bytes.{put_uint64}
use mrtp.Data.Bin.{World, DataBin}
use mrtp.Data.Source.{ends}
use mrtp.Data.Chunks.{ChunkEvent}
use mrtp.Data.Run.{run_source}
use mrtp.Data.Sink.{read_error, run_sink}
use mrtp.Data.Receiving.{total, IsMessage, ReadsMessages, run_sink-chunks}
use mrtp.Data.Works.{concat, IsBlock, Works}
use mrtp.Data.Sending.{run_source_sends}

length-concat : (bs : List (List ℕ)) → length (concat bs) ≡ total bs
length-concat [] = refl
length-concat (b ∷ bs) = length-append b (concat bs) ∙ ap (λ n. length b + n) (length-concat bs)

length-blocks : (bs : List (List ℕ)) → All IsBlock bs → length bs ≤ total bs
length-blocks [] h = omega arith
length-blocks (b ∷ bs) (h, hs) = omega (arith, h.0, length-blocks bs hs)

-- Where no call fails, for a file that is not empty and with fuel for each of its bytes: `Run` with a
-- file source, and without the chunk source, sends the whole file after its size, in blocks of at most 1024 bytes, and returns
-- no error; and `Run` of a sink that reads these messages from a reader that delivers each whole
-- finishes one chunk, of the size of the file, and returns at the end of the messages.
pub run_source-run_sink :
    {W : Type 0} {R : Type 0} (world : World W) (file : W → List ℕ) (sent : W → List (List ℕ))
    (read : ℕ → R → R × (List ℕ × Bool)) (pending : R → List (List ℕ)) (es : List ChunkEvent)
    (d : DataBin) (w : W) (r : R) (fuel : ℕ)
    → Works world file sent
    → ReadsMessages read pending
    → d.has_wc ≡ true
    → d.use_chunk_src ≡ false
    → d.use_file_src ≡ true
    → sent w ≡ []
    → 0 < length (file w)
    → length (file w) < 2 ^ 63
    → length (file w) < fuel
    → pending r ≡ sent (run_source world fuel es d w).0.1
    → ((run_source world fuel es d w).1 ≡ ends none)
      × ((bs : List (List ℕ)) × ((sent (run_source world fuel es d w).0.1
              ≡ put_uint64 (length (file w)) ∷ bs)
            × (All IsBlock bs
                × ((concat bs ≡ file w)
                    × ((run_sink read fuel 2 [] r).1 ≡ (length (file w) ∷ [], read_error))))))
run_source-run_sink world file sent read pending es d w r fuel works reads has no_chunks use_file
      fresh some_bytes small enough p =
    let s = run_source_sends world file sent works fuel es d w has no_chunks use_file enough in
    let size : total s.blocks ≡ length (file w) =
      sym (length-concat s.blocks) ∙ ap length s.whole in
    let is_size : length (file w) % 2 ^ 64 ≡ length (file w) = omega (arith, small) in
    let order : sent (run_source world fuel es d w).0.1 ≡ put_uint64 (length (file w)) ∷ s.blocks =
      s.in_order ∙ rw (fresh, is_size) refl in
    let messages : All IsMessage s.blocks =
      All-map IsBlock IsMessage s.blocks (λ b h. (h.0, omega (arith, h.1))) s.are_blocks in
    let received =
      run_sink-chunks read pending reads (s.blocks ∷ []) fuel 2 [] r
        ((messages, (rw size some_bytes, rw size small)), tt)
        (omega (arith, size, enough, length-blocks s.blocks s.are_blocks), tt) (omega arith)
        (p ∙ order ∙ rw (size, append-nil s.blocks) refl) in
    (s.returns, (s.blocks, (order, (s.are_blocks, (s.whole, rw⁻¹ size received)))))
