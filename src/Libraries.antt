-- ===== src/Libraries.antt =====
-- `SIOBlockLibraryLoader` (src/SIOBlock.cc, include/podio/SIOBlock.h): which shared libraries with
-- SIO blocks are found, and how they are loaded. The environment, the file system and `dlopen` are
-- parameters.
use podio.Base.{
  ℕ, ◌≡◌, refl, Text, codes, text_order, ℕ_discrete, ite, cond, Bool, true, false, ◌||◌, List, [],
  ◌∷◌, ◌++◌, Option, none, some, Outcome, ok, throws, ◌>>=◌, runtime_error, is_empty, map_find,
  map_emplace,
}
use podio.Registry.{has_prefix}

pub data LoadStatus : Type 0 where
  success already_loaded error : LoadStatus

module _ {H : Type 0} (dlopen : Text → Option H) where
  -- `loadLib`, on the map of the libraries that are loaded
  unfoldable pub load_lib :
      (libname directory : Text) → List (Text × H) → LoadStatus × List (Text × H)
  load_lib libname directory loaded = elim (map_find text_order libname loaded) [
    | some _ ↦ (already_loaded, loaded)
    | none ↦ elim (dlopen (directory ++ codes "/" ++ libname)) [
      | none ↦ (error, loaded)
      | some handle ↦ (success, map_emplace text_order libname handle loaded)
    ]
  ]

  -- The loop of the constructor
  unfoldable pub load_libs : List (Text × Text) → List (Text × H) → List (Text × H)
  unfolding load_lib
  load_libs [] loaded = loaded
  load_libs ((lib, dir) ∷ libs) loaded = load_libs libs (load_lib lib dir loaded).1

-- `std::getline` until the end of the stream. No part is left behind a last delimiter.
unfoldable pub lines_from : (delim : ℕ) → (line : Text) → Text → List Text
lines_from delim line [] = cond (is_empty line) [] (line ∷ [])
lines_from delim line (c ∷ cs) =
    let next = line ∷ lines_from delim [] cs in
    let more = lines_from delim (line ++ c ∷ []) cs in ite (ℕ_discrete c delim) next more

unfoldable pub lines : (delim : ℕ) → Text → List Text
unfolding lines_from
lines delim s = lines_from delim [] s

-- `find(part) != npos`
unfoldable pub contains : (part : Text) → Text → Bool
unfolding has_prefix
contains part [] = has_prefix part []
contains part (c ∷ cs) = has_prefix part (c ∷ cs) || contains part cs

pub record FileSystem : Type 0 where
  pub exists : Text → Bool
  pub filenames : Text → Outcome (List Text)

-- The libraries among the files of a directory
unfoldable pub libs_of : (dir : Text) → List Text → List (Text × Text)
unfolding contains
libs_of dir [] = []
libs_of dir (f ∷ fs) =
    cond (contains (codes "SioBlocks") f) ((f, dir) ∷ libs_of dir fs) (libs_of dir fs)

abbrev pub block_path : Text
block_path = codes "PODIO_SIOBLOCK_PATH"

abbrev pub library_path : Text
library_path = codes "LD_LIBRARY_PATH"

abbrev pub is_set : Option Text → Bool
is_set none = false
is_set (some v) = true

module _ (getenv : Text → Option Text) (fs : FileSystem) where
  -- The loop over the directories of `getLibNames`, with what was found so far
  unfoldable pub find_libs : List Text → List (Text × Text) → Outcome (List (Text × Text))
  unfolding libs_of
  find_libs [] libs = ok libs
  find_libs (dir ∷ dirs) libs =
      cond (fs.exists dir)
        (do
          files ← fs.filenames dir
          let found = libs ++ libs_of dir files
          cond (cond (is_set (getenv block_path)) (is_empty found) false) (throws runtime_error)
              (find_libs dirs found))
        (find_libs dirs libs)

  unfoldable pub search_path : Option Text
  search_path = elim (getenv block_path) [ none ↦ getenv library_path | some path ↦ some path ]

  unfoldable pub get_lib_names : Outcome (List (Text × Text))
  unfolding search_path find_libs lines
  get_lib_names = elim search_path [ none ↦ ok [] | some path ↦ find_libs (lines 58 path) [] ]

  -- The constructor
  unfoldable pub load_all : {H : Type 0} → (Text → Option H) → Outcome (List (Text × H))
  unfolding get_lib_names load_libs
  load_all dlopen = do libs ← get_lib_names; ok (load_libs dlopen libs [])

  abbrev pub AllMissing : List Text → Type 0
  AllMissing [] = Unit
  AllMissing (d ∷ ds) = (fs.exists d ≡ false) × AllMissing ds

  find_libs-empty_first :
      (missing : List Text) (dir : Text) (dirs files : List Text)
      → is_set (getenv block_path) ≡ true
      → AllMissing missing
      → fs.exists dir ≡ true
      → fs.filenames dir ≡ ok files
      → libs_of dir files ≡ []
      → find_libs (missing ++ dir ∷ dirs) [] ≡ throws runtime_error
  unfolding find_libs
  find_libs-empty_first [] dir dirs files set absent here list none_there =
      rw (here, list, none_there, set) refl
  find_libs-empty_first (d ∷ missing) dir dirs files set (gone, absent) here list none_there =
      rw gone (find_libs-empty_first missing dir dirs files set absent here list none_there)

  -- If PODIO_SIOBLOCK_PATH is set and the first of its directories that exist has no library of SIO
  -- blocks, then `getLibNames` throws, whatever libraries the directories behind it have.
  pub get_lib_names-empty_first :
      (path : Text) (missing : List Text) (dir : Text) (dirs files : List Text)
      → getenv block_path ≡ some path
      → lines 58 path ≡ missing ++ dir ∷ dirs
      → AllMissing missing
      → fs.exists dir ≡ true
      → fs.filenames dir ≡ ok files
      → libs_of dir files ≡ []
      → get_lib_names ≡ throws runtime_error
  unfolding get_lib_names search_path
  get_lib_names-empty_first path missing dir dirs files set parts absent here list none_there =
      rw (get_lib_names, search_path, set, parts)
        (find_libs-empty_first missing dir dirs files (rw set refl) absent here list none_there)
