-- ===== src/Encoding/Abi.antt =====
-- A reader of the ABI format of `(uint8[], bytes[])`, written from the format alone: offsets are
-- followed wherever they point, and a word or a body that is cut short is refused. It is what
-- the handler contract does with `abi.decode`.
use gas_analyzer.Prelude.{
  ℕ, zero, suc, Option, none, some, List, [], ◌∷◌, leb, if◌then◌else◌, length, take, drop,
}
use gas_analyzer.Prelude.Options.{◌>>=◌}
use gas_analyzer.Prelude.Bytes.{Bytes, read_be}

abbrev pub read_word : Bytes → Option ℕ
read_word bytes = if leb 32 (length bytes) then some (read_be 0 (take 32 bytes)) else none

unfoldable pub read_words : ℕ → Bytes → Option (List ℕ)
read_words zero bytes = some []
read_words (suc n) bytes = do
  word ← read_word bytes
  words ← read_words n (drop 32 bytes)
  some (word ∷ words)

unfoldable pub read_enums : Bytes → Option (List ℕ)
read_enums bytes = do n ← read_word bytes; read_words n (drop 32 bytes)

unfoldable pub read_body : Bytes → Option Bytes
read_body bytes = do
  n ← read_word bytes
  if leb n (length (drop 32 bytes)) then some (take n (drop 32 bytes)) else none

-- The elements whose heads come next in `heads`; an offset counts from the start of `base`.
unfoldable pub read_elements : ℕ → Bytes → Bytes → Option (List Bytes)
read_elements zero base heads = some []
read_elements (suc n) base heads = do
  offset ← read_word heads
  element ← read_body (drop offset base)
  elements ← read_elements n base (drop 32 heads)
  some (element ∷ elements)

unfoldable pub read_bytes_array : Bytes → Option (List Bytes)
read_bytes_array bytes = do n ← read_word bytes; read_elements n (drop 32 bytes) (drop 32 bytes)

unfoldable pub decode : Bytes → Option (List ℕ × List Bytes)
decode bytes = do
  offset_types ← read_word bytes
  offset_datas ← read_word (drop 32 bytes)
  types ← read_enums (drop offset_types bytes)
  datas ← read_bytes_array (drop offset_datas bytes)
  some (types, datas)
