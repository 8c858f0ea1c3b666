-- ===== src/Reader.antt =====
-- src/reader.rs: `BatchingReader`, which reads a file in batches. Its identifier, which is only
-- logged, is left out.
pub mod Whole
pub mod Files
use post_rs.Base.{ℕ, zero, suc, ◌+◌, ◌-◌, Option, none, some, List, [], ◌∷◌, min}
use post_rs.Base.{length, take, drop, leb, ◌==◌, if◌then◌else◌}
use post_rs.Base.Words.{u64, sub64}

-- `std::io::Read`, with `reader.by_ref().take(n).read_to_end(&mut data)`: what was read, or `none`
-- for an error, and the reader after it.
pub record Read : Type 1 where
  pub R : Type 0
  pub read_to_end : R → ℕ → Option (List ℕ) × R

-- A file or a slice: it gives what is left, at most as many bytes as asked for.
abbrev pub bytes_reader : Read
bytes_reader = record { R = List ℕ; read_to_end = λ bytes n. (some (take n bytes), drop n bytes) }

pub record Batch : Type 0 where
  pub data_bytes : List ℕ
  pub pos : ℕ

module _ (read : Read) where
  open read use {R, read_to_end}

  pub record BatchingReader : Type 0 where
    pub reader : R
    pub starting_pos : ℕ
    pub pos : ℕ
    pub batch_size : ℕ
    pub total_size : ℕ

  pub new_reader : R → ℕ → ℕ → ℕ → BatchingReader
  new_reader reader pos batch_size total_size = record {
    reader = reader;
    starting_pos = pos;
    pos = pos;
    batch_size = batch_size;
    total_size = total_size;
  }

  -- The batch of the bytes that were read.
  pub batch_of : BatchingReader → Option (List ℕ) × R → Option Batch × BatchingReader
  batch_of it (none, reader) = (none, record it { reader = reader })
  batch_of it (some bytes, reader) =
      if length bytes == 0 then (none, record it { reader = reader }) else (
        some (record { data_bytes = bytes; pos = it.pos }),
        record it { reader = reader; pos = u64 (it.pos + length bytes) },
      )

  -- `BatchingReader::next`
  pub next : BatchingReader → Option Batch × BatchingReader
  next it =
      let pos_in_file = sub64 it.pos it.starting_pos in
      if leb it.total_size pos_in_file
      then (none, it)
      else batch_of it (read_to_end it.reader (min it.batch_size (it.total_size - pos_in_file)))

  -- The batches up to the first `None`, of at most as many calls of `next` as the fuel.
  pub batches : ℕ → BatchingReader → List Batch
  batches zero it = []
  batches (suc fuel) it =
      let rest = batches fuel (next it).1 in
      elim (next it).0 [ none ↦ [] | some batch ↦ batch ∷ rest ]
