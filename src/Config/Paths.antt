-- ===== src/Config/Paths.antt =====
-- Slash-separated paths: package path's `Clean` and `IsAbs` (filepath's are the same on Linux),
-- `ExpandHome` and `pathCoversOrEquals` of internal/config/validate.go.
pub mod Clean
pub mod Cover
use muro.Base.{
  Bool, true, false, ◌&&◌, ◌||◌, not, List, [], ◌∷◌, ◌++◌, Option, none, some, Bytes, codes,
  bytes_eq, has_prefix, trim_prefix, split, refl, ◌≡◌, if◌then◌else◌,
}

abbrev pub slash : Bytes
slash = codes "/"

abbrev pub dot : Bytes
dot = codes "."

abbrev pub dotdot : Bytes
dotdot = codes ".."

-- strings.Join with "/"
unfoldable pub join : List Bytes → Bytes
join [] = []
join (c ∷ []) = c
join (c ∷ d ∷ cs) = c ++ (slash ++ join (d ∷ cs))

-- `..` after the components kept so far: it takes the last one away, unless that is a `..` that
-- could not be resolved; at the root it does nothing.
unfoldable pub pop : Bool → List Bytes → List Bytes
pop rooted [] = if rooted then [] else dotdot ∷ []
pop rooted (c ∷ []) = if bytes_eq c dotdot then c ∷ dotdot ∷ [] else []
pop rooted (c ∷ d ∷ cs) = c ∷ pop rooted (d ∷ cs)

unfoldable pub clean_step : Bool → List Bytes → Bytes → List Bytes
unfolding pop
clean_step rooted kept c =
    if bytes_eq c [] || bytes_eq c dot
    then kept
    else if bytes_eq c dotdot
    then pop rooted kept
    else kept ++ c ∷ []

unfoldable pub resolve : Bool → List Bytes → List Bytes → List Bytes
resolve rooted kept [] = kept
resolve rooted kept (c ∷ cs) = resolve rooted (clean_step rooted kept c) cs

-- filepath.IsAbs
unfoldable pub is_abs : Bytes → Bool
is_abs s = has_prefix s slash

unfoldable pub parts : Bytes → List Bytes
parts s = resolve (is_abs s) [] (split b'/' s)

or_dot : List Bytes → Bytes
or_dot [] = dot
or_dot (c ∷ cs) = join (c ∷ cs)

-- path.Clean
unfoldable pub clean : Bytes → Bytes
unfolding or_dot
clean s = if is_abs s then slash ++ join (parts s) else or_dot (parts s)

-- `ExpandHome`, with the result of os.UserHomeDir: `none` is its error.
unfoldable pub expand_home : Option Bytes → Bytes → Bytes
expand_home home path =
    if not (bytes_eq path (codes "~")) && not (has_prefix path (codes "~/"))
    then path
    else elim home [
      | none ↦ path
      | some h ↦
          if bytes_eq h []
          then path
          else if bytes_eq path (codes "~")
          then h
          else clean (h ++ (slash ++ trim_prefix path (codes "~/")))
    ]

-- `pathCoversOrEquals`
unfoldable pub path_covers_or_equals : Bytes → Bytes → Bool
path_covers_or_equals outer inner =
    if not (is_abs outer) || not (is_abs inner)
    then false
    else if bytes_eq (clean outer) slash
    then true
    else if bytes_eq (clean outer) (clean inner)
    then true
    else has_prefix (clean inner) (clean outer ++ slash)

clean_samples :
    (clean (codes "/a/./b//../c/") ≡ codes "/a/c")
    × (clean (codes "../x/..") ≡ codes "..")
    × (clean (codes "/../..") ≡ codes "/")
    × (clean [] ≡ codes ".")
unfolding clean parts resolve clean_step is_abs has_prefix split join bytes_eq
clean_samples = (refl, refl, refl, refl)
