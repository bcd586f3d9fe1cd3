-- ===== src/Data/Receiving.antt =====
-- What `Run` of data/sink.go reads of chunks that come as messages.
use mrtp.Prelude.{
  ℕ, zero, suc, ◌+◌, ◌^◌, ◌≤◌, ◌<◌, ◌≡◌, refl, ap, ◌∙◌, List, [], ◌∷◌, ◌++◌, map, append_assoc,
  append-nil, Bool, true, false, All, length, ◌==◌, arith,
}
use mrtp.Prelude.Int.{pos, ltb_ℤ, to_int64}
use mrtp.Data.Bytes.{put_uint64, uint64_of, length-put_uint64, uint64_of-put_uint64}
use mrtp.Data.Sink.{read_error, finished, read_chunk, run_sink}

abbrev pub total : List (List ℕ) → ℕ
total [] = 0
total (b ∷ bs) = length b + total bs

-- A message that is not empty and fits a buffer of 2048 bytes.
abbrev pub IsMessage : List ℕ → Type 0
IsMessage b = (0 < length b) × (length b ≤ 2048)

-- The messages of chunks, each after its size.
abbrev pub chunks_of : List (List (List ℕ)) → List (List ℕ)
chunks_of [] = []
chunks_of (c ∷ cs) = put_uint64 (total c) ∷ c ++ chunks_of cs

abbrev pub IsChunk : List (List ℕ) → Type 0
IsChunk c = All IsMessage c × ((0 < total c) × (total c < 2 ^ 63))

-- A reader of messages: one that fits the buffer comes whole, and after the last there is an error.
pub record ReadsMessages {R : Type 0} (read : ℕ → R → R × (List ℕ × Bool))
    (pending : R → List (List ℕ)) : Type 0 where
  pub read_end : (n : ℕ) (r : R) → pending r ≡ [] → (read n r).1.1 ≡ true
  pub read_message :
      (n : ℕ) (r : R) (b : List ℕ) (bs : List (List ℕ))
      → pending r ≡ b ∷ bs
      → length b ≤ n
      → ((read n r).1 ≡ (b, false)) × (pending (read n r).0 ≡ bs)

at_end : (n size : ℕ) → n ≡ size → size < 2 ^ 63 → ltb_ℤ (pos n) (to_int64 size) ≡ false
at_end n size e small = ground (arith)

before_end : (n size : ℕ) → n < size → size < 2 ^ 63 → ltb_ℤ (pos n) (to_int64 size) ≡ true
before_end n size e small = ground (arith)

module _ {R : Type 0} (read : ℕ → R → R × (List ℕ × Bool)) (pending : R → List (List ℕ))
    (reads : ReadsMessages read pending) where
  read_chunk-finished :
      (c : List (List ℕ)) (later : List (List ℕ)) (size n fuel : ℕ) (r : R)
      → All IsMessage c
      → n + total c ≡ size
      → size < 2 ^ 63
      → length c < fuel
      → pending r ≡ c ++ later
      → (let x = read_chunk read fuel size n r in (x.1 ≡ finished size) × (pending x.0 ≡ later))
  unfolding read_chunk
  read_chunk-finished c later size n zero r m t small enough p = absurd (omega (arith, enough))
  read_chunk-finished [] later size n (suc fuel) r m t small enough p =
      let whole : ltb_ℤ (pos n) (to_int64 size) ≡ false = at_end n size (omega (arith, t)) small in
      rw whole ((ap finished (omega (arith, t))), p)
  read_chunk-finished (b ∷ c) later size n (suc fuel) r ((some_bytes, fits), m) t small enough p =
      let (e, q) = reads.read_message 2048 r b (c ++ later) p fits in
      let more : ltb_ℤ (pos n) (to_int64 size) ≡ true =
        before_end n size (omega (arith, t, some_bytes)) small in
      rw (more, e)
        (read_chunk-finished c later size (n + length b) fuel (read 2048 r).0 m (omega (arith, t))
          small (omega (arith, enough)) q)

  pub run_sink-chunks :
      (cs : List (List (List ℕ))) (inner fuel : ℕ) (done : List ℕ) (r : R)
      → All IsChunk cs
      → All (λ c. length c < inner) cs
      → length cs < fuel
      → pending r ≡ chunks_of cs
      → (run_sink read inner fuel done r).1 ≡ (done ++ map total cs, read_error)
  unfolding run_sink
  run_sink-chunks cs inner zero done r are few enough p = absurd (omega (arith, enough))
  run_sink-chunks [] inner (suc fuel) done r are few enough p =
      rw (reads.read_end 8 r p, append-nil done) refl
  run_sink-chunks (c ∷ cs) inner (suc fuel) done r ((m, (some_bytes, small)), are)
        (enough_inner, few) enough p =
      let (e, q) =
        reads.read_message 8 r (put_uint64 (total c)) (c ++ chunks_of cs) p
          (rw (length-put_uint64 (total c)) (omega arith)) in
      let size : uint64_of (put_uint64 (total c)) ≡ total c =
        uint64_of-put_uint64 (total c) ∙ omega (arith, small) in
      let (f, q') =
        read_chunk-finished c (chunks_of cs) (total c) 0 inner (read 8 r).0 m (omega arith) small
          enough_inner q in
      let r2 = (read_chunk read inner (total c) 0 (read 8 r).0).0 in
      let rest =
        run_sink-chunks cs inner fuel (done ++ total c ∷ []) r2 are few (omega (arith, enough))
          q' in
      let not_zero : (total c == 0) ≡ false = ground (arith, some_bytes) in
      simp (e, size, length-put_uint64 (total c), not_zero, f, rest, append_assoc)
