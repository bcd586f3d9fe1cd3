-- ===== src/Data/Tests.antt =====
-- A concrete run of data/source.go and data/sink.go.
use mrtp.Prelude.{
  ℕ, zero, suc, ◌<◌, ◌≤◌, ◌≡◌, ◌≢◌, ◌⊎◌, ◌*◌, refl, List, [], ◌∷◌, ◌++◌, Bool, true, false, none,
  some, leb, if◌then◌else◌, All, length, take, drop, arith,
}
use mrtp.Data.Bytes.{put_uint64}
use mrtp.Data.Bin.{World, DataBin, use_file_source, new_data_bin, ReadEnd, read_ok, read_eof}
use mrtp.Data.Source.{ends}
use mrtp.Data.Run.{run_source}
use mrtp.Data.Sink.{read_error, run_sink}
use mrtp.Data.Works.{concat, IsBlock, Works}
use mrtp.Data.Receiving.{ReadsMessages}
use mrtp.Data.Chunks.{
  ChunkEvent, starts, steps, finishes, run_chunks, chunk_event, step_goroutine, start_goroutine,
  finish_chunks, step_at, start_chunk_source,
}
use mrtp.Data.Chunks.Messages.{Consists}
use mrtp.Data.Chunks.Blocks.{start_chunk_source-Consists}
use mrtp.Data.Transfer.{run_source-run_sink}

-- What is left of a file, and what was written.
abbrev Place : Type 0
Place = List ℕ × List (List ℕ)

-- A byte at a time, or the end of the file.
abbrev read_byte : Place → Place × (List ℕ × ReadEnd)
read_byte ([], sent) = (([], sent), ([], read_eof))
read_byte (b ∷ bs, sent) = ((bs, sent), (b ∷ [], read_ok))

abbrev place : World Place
place = record {
  write = λ b w. ((w.0, w.1 ++ b ∷ []), true);
  close = λ w. (w, true);
  is_done = λ w. (w, false);
  sleep = λ t w. (w, true);
  wait_n = λ n w. (w, true);
  open_file = λ path w. (w, true);
  file_size = λ w. (w, some (length w.0));
  read_file = λ n w. read_byte w;
  rand_read = λ n w. (w, []);
}

read_byte_some :
    (n : ℕ) (w : Place)
    → 0 < n
    → 0 < length w.0
    → (b : List ℕ) × (((read_byte w).1 ≡ (b, read_ok))
        × (((0 < length b) × (length b ≤ n))
            × ((w.0 ≡ b ++ (read_byte w).0.0) × ((read_byte w).0.1 ≡ w.1))))
read_byte_some n ([], sent) h k = absurd (omega (arith, k))
read_byte_some n (b ∷ bs, sent) h k =
    (b ∷ [], (refl, ((omega arith, omega (arith, h)), (refl, refl))))

read_byte_end :
    (w : Place) → w.0 ≡ [] → ((read_byte w).1 ≡ ([], read_eof)) × ((read_byte w).0.1 ≡ w.1)
read_byte_end ([], sent) e = (refl, refl)
read_byte_end (b ∷ bs, sent) e = absurd cc

place-Works : Works place (λ w. w.0) (λ w. w.1)
place-Works = record {
  write_ok = λ b w. (refl, (refl, refl));
  close_ok = λ w. (refl, refl);
  never_done = λ w. (refl, (refl, refl));
  wait_ok = λ n w. (refl, (refl, refl));
  sleep_ok = λ t w. (refl, (refl, refl));
  open_ok = λ path w. (refl, (refl, refl));
  size_ok = λ w. (refl, (refl, refl));
  read_some = λ n w h k. read_byte_some n w h k;
  read_end = λ n w e. read_byte_end w e;
}

-- A message that does not fit is read in parts.
abbrev read_messages : ℕ → List (List ℕ) → List (List ℕ) × (List ℕ × Bool)
read_messages n [] = ([], ([], true))
read_messages n (b ∷ bs) =
    if leb (length b) n then (bs, (b, false)) else (drop n b ∷ bs, (take n b, false))

read_messages_whole :
    (n : ℕ) (b : List ℕ) (bs : List (List ℕ))
    → length b ≤ n
    → read_messages n (b ∷ bs) ≡ (bs, (b, false))
read_messages_whole n b bs h =
    (let e : leb (length b) n ≡ true = ground (arith, h) in rw (read_messages, e) refl)

read_messages-ReadsMessages : ReadsMessages read_messages (λ r. r)
read_messages-ReadsMessages = record {
  read_end = λ n r e. rw e refl;
  read_message = λ n r b bs e h. rw (e, read_messages_whole n b bs h) (refl, refl);
}

abbrev three_bytes : Place
three_bytes = (7 ∷ 8 ∷ 9 ∷ [], [])

abbrev bin : DataBin
bin = new_data_bin true (use_file_source (1 ∷ []) ∷ [])

run_source-run_sink_example :
    ((run_source place 4 [] bin three_bytes).1 ≡ ends none)
    × ((bs : List (List ℕ)) × (((run_source place 4 [] bin three_bytes).0.1.1 ≡ put_uint64 3 ∷ bs)
          × (All IsBlock bs
              × ((concat bs ≡ 7 ∷ 8 ∷ 9 ∷ [])
                  × ((run_sink read_messages 4 2 [] (run_source place 4 [] bin three_bytes).0.1.1).1
                      ≡ (3 ∷ [], read_error))))))
run_source-run_sink_example =
    run_source-run_sink place (λ w. w.0) (λ w. w.1) read_messages (λ r. r) [] bin three_bytes
      (run_source place 4 [] bin three_bytes).0.1.1 4 place-Works read_messages-ReadsMessages refl
      refl refl refl (omega arith) (omega arith) (omega arith) refl

abbrev times : ℕ → ChunkEvent → List ChunkEvent
times zero e = []
times (suc n) e = e ∷ times n e

-- A goroutine is started and takes more steps than it has; the next is started after that.
abbrev in_turn : ℕ → ℕ → List ChunkEvent
in_turn zero i = finishes ∷ []
in_turn (suc n) i = starts ∷ (times 104 (steps i) ++ in_turn n (suc i))

-- Two goroutines first, whose steps alternate, and then 13 more.
abbrev all_chunks : List ChunkEvent
all_chunks = starts ∷ starts ∷ (both 104 ++ in_turn 13 2)
  where
    both : ℕ → List ChunkEvent
    both zero = []
    both (suc n) = steps 0 ∷ steps 1 ∷ both n

all_chunks-ends :
    (start_chunk_source place all_chunks (new_data_bin true []) three_bytes).turn ≡ ends none
unfolding start_chunk_source run_chunks chunk_event step_goroutine start_goroutine finish_chunks
    step_at
all_chunks-ends = refl

start_chunk_source-Consists_example :
    (let x = start_chunk_source place all_chunks (new_data_bin true []) three_bytes in
      (sizes : ℕ) × ((blocks : ℕ) × (Consists sizes blocks x.world_state.1
          × ((sizes ≤ 15)
              × ((blocks ≤ 100 * sizes)
                  × ((x.turn ≢ ends none) ⊎ ((sizes ≡ 15) × (blocks ≡ 1500))))))))
start_chunk_source-Consists_example =
    start_chunk_source-Consists place (λ w. w.0) (λ w. w.1) all_chunks (new_data_bin true [])
      three_bytes place-Works refl refl
