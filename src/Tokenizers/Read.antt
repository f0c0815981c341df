-- ===== src/Tokenizers/Read.antt =====
-- `read_text` of core/vca/filesystem.cpp. A file that is opened is the bytes that its stream gives,
-- `none` if the stream is not good.
use vca.Prelude.{ℕ, List, Option, none, some, take}

abbrev pub File : Type 0
File = Option (List ℕ)

-- `none` is the error of `VCA_CHECK`.
unfoldable pub read_text : File → ℕ → Option (List ℕ)
read_text none max_byte_count = none
read_text (some bytes) max_byte_count = some (take max_byte_count bytes)
