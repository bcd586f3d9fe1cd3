-- ===== src/Gopipe/IvfDataSource.antt =====
-- gopipe/ivf_data_source.go. The reader of IVF files is third-party code and a parameter here; the waiting
-- between two reads is left out.
pub mod Reads
mod Tests
use mrtp.Prelude.{ℕ, zero, suc, List, [], ◌∷◌, Bool, Option, none, some, take, length}

pub record IvfFrame : Type 0 where
  pub header : ℕ
  pub payload : List ℕ

-- `parse r` is `ParseNextFrame`; `none` is an error, the end of the file among them.
module _ {R : Type 0} (parse : R → R × Option IvfFrame) where
  pub record IvfDataSource : Type 0 where
    pub reader : R
    pub next : IvfFrame

  -- `NewIVFDataSource`, after the file header was read.
  unfoldable pub new_ivf_data_source : R → Option IvfDataSource
  new_ivf_data_source r =
      let (r', f) = parse r in
      elim f [ none ↦ none | some frame ↦ some (record { reader = r'; next = frame }) ]

  -- `Read` of a buffer of `n` bytes: the bytes that `copy` puts there.
  unfoldable pub read_ivf : ℕ → IvfDataSource → IvfDataSource × Option (List ℕ)
  read_ivf n s =
      let (r', f) = parse s.reader in
      elim f [
        | none ↦ (record s { reader = r' }, none)
        | some frame ↦ (record { reader = r'; next = frame }, some (take n s.next.payload))
      ]
