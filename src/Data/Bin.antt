-- ===== src/Data/Bin.antt =====
-- `DataBin` of data/source.go, its options, and what it needs of the operating system and the transport.
use mrtp.Prelude.{ℕ, max, List, [], ◌∷◌, Bool, true, false, Option, none, some}
use mrtp.Prelude.Int.{ℤ, pos}

pub data SourceError : Type 0 where
  no_sink : SourceError
  not_opened : SourceError
  no_info : SourceError
  not_written : SourceError
  not_read : SourceError
  not_closed : SourceError
  wait_failed : SourceError
  cancelled : SourceError

-- How a `Read` of a file ends.
pub data ReadEnd : Type 0 where
  read_ok : ReadEnd
  read_eof : ReadEnd
  read_failed : ReadEnd

-- The calls of the writer, the limiter, the context, the file and the random numbers, on the state that
-- they share; `false` is an error, and a context that is done.
pub record World (W : Type 0) : Type 0 where
  pub write : List ℕ → W → W × Bool
  pub close : W → W × Bool
  pub is_done : W → W × Bool
  pub sleep : ℤ → W → W × Bool
  pub wait_n : ℕ → W → W × Bool
  pub open_file : List ℕ → W → W × Bool
  pub file_size : W → W × Option ℕ
  pub read_file : ℕ → W → W × (List ℕ × ReadEnd)
  pub rand_read : ℕ → W → W × List ℕ

-- The limit of a limiter, in eighths of a byte for each second, and its burst.
pub record Limiter : Type 0 where
  pub limit : ℕ
  pub burst : ℕ

-- `has_wc` says that `wc` is not nil.
pub record DataBin : Type 0 where
  pub use_file_src : Bool
  pub use_chunk_src : Bool
  pub filepath : List ℕ
  pub has_wc : Bool
  pub rate_limiter : Option Limiter
  pub running : Bool
  pub start_delay : ℤ

pub data DataBinOption : Type 0 where
  use_file_source : List ℕ → DataBinOption
  use_chunk_source : DataBinOption
  set_start_delay : ℤ → DataBinOption
  use_rate_limiter : ℕ → ℕ → DataBinOption

-- At least one byte for each second.
abbrev pub bit_rate_to_bytes_per_sec : ℕ → ℕ
bit_rate_to_bytes_per_sec bitrate = max bitrate 8

abbrev pub apply_option : DataBinOption → DataBin → DataBin
apply_option (use_file_source filepath) d = record d { use_file_src = true; filepath = filepath }
apply_option use_chunk_source d = record d { use_chunk_src = true }
apply_option (set_start_delay start_delay) d = record d { start_delay = start_delay }
apply_option (use_rate_limiter init_limit burst) d = record d {
  rate_limiter = some (record { limit = bit_rate_to_bytes_per_sec init_limit; burst = burst });
}

abbrev pub apply_options : List DataBinOption → DataBin → DataBin
apply_options [] d = d
apply_options (o ∷ os) d = apply_options os (apply_option o d)

abbrev pub new_data_bin : Bool → List DataBinOption → DataBin
new_data_bin has_wc options = apply_options options (record {
  use_file_src = false;
  use_chunk_src = false;
  filepath = [];
  has_wc = has_wc;
  rate_limiter = none;
  running = false;
  start_delay = pos 0;
})

unfoldable pub set_rate_limit : DataBin → ℕ → DataBin
set_rate_limit d ratebps = elim d.rate_limiter [
  | none ↦ d
  | some l ↦ record d {
    rate_limiter = some (record l { limit = bit_rate_to_bytes_per_sec ratebps });
  }
]
