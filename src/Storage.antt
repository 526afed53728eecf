-- ===== src/Storage.antt =====
-- What is kept in files, and the JSON text in them: os.OpenFile with O_TRUNC, File.Write and os.ReadFile on one path, as the
-- stores of tss_util/keyshare and tss_util/topology call them.
use binance_tss_demo.Prelude.{ℕ, Bytes, [], Option, none, some, Result, ok, err, take, ◌≡◌, ◌++◌}

-- What the path holds: nothing, or a file with these bytes.
abbrev pub File : Type 0
File = Option Bytes

-- What the system does with the calls of one store: if opening fails, and if writing fails after some
-- bytes.
pub record Disk : Type 0 where
  pub open_error : Option Bytes
  pub write_error : Option (ℕ × Bytes)

-- `f.Write` on an empty file: what is in it then, and the error.
abbrev write : Option (ℕ × Bytes) → Bytes → File × Option Bytes
write none text = (some text, none)
write (some (n, e)) text = (some (take n text), some e)

-- What follows the opening: the file is empty by then, and the text is made, which may fail.
unfoldable pub write_text : Option (ℕ × Bytes) → Result Bytes Bytes → File × Option Bytes
write_text write_error (err e) = (some [], some e)
write_text write_error (ok text) = write write_error text

-- Opens, makes the text and writes it.
unfoldable pub store_steps :
    Option Bytes → Option (ℕ × Bytes) → Result Bytes Bytes → File → File × Option Bytes
unfolding write_text
store_steps (some e) write_error text file = (file, some e)
store_steps none write_error text file = write_text write_error text

-- The shape of every store.
unfoldable pub store_text : Disk → Result Bytes Bytes → File → File × Option Bytes
unfolding store_steps
store_text disk text file = store_steps disk.open_error disk.write_error text file

-- `os.ReadFile`.
abbrev pub read_file : File → Result Bytes Bytes
read_file none = err []
read_file (some text) = ok text

-- encoding/json on a type.
pub record Json (A : Type 0) : Type 0 where
  pub marshal : A → Result Bytes Bytes
  pub unmarshal : Bytes → Result Bytes A

-- What is written is read back.
pub record IsJson {A : Type 0} (json : Json A) : Type 0 where
  pub round_trip : (a : A) (text : Bytes) → json.marshal a ≡ ok text → json.unmarshal text ≡ ok a

-- `fmt.Errorf` with a prefix.
abbrev pub prefixed : {A : Type 0} → Bytes → Result Bytes A → Result Bytes A
prefixed prefix (ok a) = ok a
prefixed prefix (err e) = err (prefix ++ e)
