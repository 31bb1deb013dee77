-- ===== src/Examples/Codecs.antt =====
-- Columns: the theorems of the codec, each applied to a column or to bytes.
use volforge.Prelude.{ℕ, ◌^◌, ◌≤◌, ◌≡◌, List, [], ◌∷◌, ◌++◌, arith, length}
use volforge.Codec.{done}
use volforge.Codec.Outcome.{Within}
use volforge.Codec.Encoder.{pack, encode_column}
use volforge.Codec.Decoder.{unpack, decode_column, peek_column_count}
use volforge.Codec.Unpacking.{unpack-pack}
use volforge.Codec.RoundTrip.{decode_column-encode_column}
use volforge.Codec.Safety.{decode_column-Within}

-- Times a second apart, a jump past the largest integer, and what follows the column.
abbrev column : List ℕ
column = 1000 ∷ 2000 ∷ 4000 ∷ 2 ^ 63 ∷ 0 ∷ 0 ∷ []

abbrev after : List ℕ
after = 7 ∷ 255 ∷ []

abbrev narrow : List ℕ
narrow = 1 ∷ 5 ∷ 7 ∷ 0 ∷ []

-- A count of three values, and the first of them only.
abbrev cut_short : List ℕ
cut_short = 3 ∷ 10 ∷ 1 ∷ 0 ∷ 9 ∷ 255 ∷ []

decode_column-encode_column_example :
    decode_column (encode_column column ++ after) ≡ done (column, after)
decode_column-encode_column_example =
    decode_column-encode_column column after
      (omega arith, (omega arith, (omega arith, (omega arith, (omega arith, (omega arith, tt))))))
      (omega arith) (omega arith, (omega arith, tt))

unpack-pack_example : unpack (pack narrow 3 ++ after) 4 3 ≡ done (narrow, after)
unpack-pack_example =
    unpack-pack 3 narrow after (omega arith)
      (omega arith, (omega arith, (omega arith, (omega arith, tt))))
      (omega arith, (omega arith, tt))

decode_column-Within_example :
    Within
      (decode_column cut_short)
      (λ s. (length s.0 ≡ peek_column_count cut_short) × (length s.1 ≤ length cut_short))
decode_column-Within_example = decode_column-Within cut_short
