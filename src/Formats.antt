-- ===== src/Formats.antt =====
-- The choice of a reader by the names and the content of files (src/Reader.cc) and of a writer by name
-- and type (src/Writer.cc). Which formats were built in and what ROOT says of a file are parameters.
use podio.Base.{
  ◌-◌, Text, codes, text_dec, ℕ_discrete, dec_le, ite, cond, Bool, true, false, not, ◌&&◌, ◌||◌,
  List, [], ◌∷◌, map, Option, none, some, Outcome, ok, throws, ◌>>◌, runtime_error, length, drop,
  is_empty, to_lower,
}

pub data ReaderKind : Type 0 where
  root_reader ntuple_reader sio_reader : ReaderKind

pub data WriterKind : Type 0 where
  root_writer ntuple_writer sio_writer : WriterKind

pub record Enabled : Type 0 where
  pub ntuple : Bool
  pub sio : Bool

-- `filename.substr(filename.find_last_of(".") + 1)`: all of the name where it has no dot.
unfoldable pub suffix_from : (last : Text) → Text → Text
suffix_from last [] = last
suffix_from last (c ∷ filename) = suffix_from (ite (ℕ_discrete c 46) filename last) filename

unfoldable pub suffix : Text → Text
unfolding suffix_from
suffix filename = suffix_from filename filename

unfoldable pub same_suffix : Text → List Text → Outcome (Unit {0})
unfolding suffix
same_suffix s [] = ok tt
same_suffix s (f ∷ fs) = ite (text_dec (suffix f) s) (same_suffix s fs) (throws runtime_error)

-- Whether one of the keys of a file is a RNTuple, by their class names.
unfoldable pub has_ntuple : (class_names : List Text) → Bool
has_ntuple [] = false
has_ntuple (c ∷ cs) =
    ite (text_dec c (codes "ROOT::Experimental::RNTuple")) true
      (ite (text_dec c (codes "ROOT::RNTuple")) true (has_ntuple cs))

-- A file that cannot be opened has no list of keys.
unfoldable pub make_root_reader : Enabled → (keys : Option (List Text)) → Outcome ReaderKind
unfolding has_ntuple
make_root_reader enabled none = throws runtime_error
make_root_reader enabled (some class_names) =
    cond (has_ntuple class_names) (cond enabled.ntuple (ok ntuple_reader) (throws runtime_error))
      (ok root_reader)

unfoldable pub make_sio_reader : Enabled → (other_files : List Text) → Outcome ReaderKind
make_sio_reader enabled others =
    cond enabled.sio (cond (is_empty others) (ok sio_reader) (throws runtime_error))
      (throws runtime_error)

unfoldable pub make_reader :
    Enabled → (keys_of : Text → Option (List Text)) → (filenames : List Text) → Outcome ReaderKind
unfolding same_suffix suffix make_root_reader make_sio_reader
make_reader enabled keys_of [] = throws runtime_error
make_reader enabled keys_of (f ∷ fs) = do
  same_suffix (suffix f) fs
  ite (text_dec (suffix f) (codes "root")) (make_root_reader enabled (keys_of f))
      (ite (text_dec (suffix f) (codes "sio")) (make_sio_reader enabled fs) (throws runtime_error))

unfoldable pub ends_with : Text → (suffix : Text) → Bool
ends_with str s =
    ite (dec_le (length s) (length str))
      (ite (text_dec (drop (length str - length s) str) s) true false) false

unfoldable pub lower : Text → Text
lower str = map to_lower str

-- The variable of the environment that makes RNTuple the default, unset or empty where it does not
unfoldable pub default_ntuple : Option Text → Bool
default_ntuple none = false
default_ntuple (some v) = not (is_empty v)

unfoldable pub is_text : Text → Text → Bool
is_text a b = ite (text_dec a b) true false

unfoldable pub make_writer :
    Enabled → (env : Option Text) → (filename type : Text) → Outcome WriterKind
unfolding ends_with lower default_ntuple is_text
make_writer enabled env filename type =
    let by_default = is_text type (codes "default") in
    let is_root = ends_with filename (codes ".root") in
    cond
      ((by_default && not (default_ntuple env) && is_root) || is_text (lower type) (codes "root"))
      (ok root_writer)
      (cond
        ((by_default && default_ntuple env && is_root) || is_text (lower type) (codes "rntuple"))
        (cond enabled.ntuple (ok ntuple_writer) (throws runtime_error))
        (cond (ends_with filename (codes ".sio"))
          (cond enabled.sio (ok sio_writer) (throws runtime_error)) (throws runtime_error)))
