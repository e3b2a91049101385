-- ===== src/FilePath.antt =====
-- `std::path::Path` by its components, as `Path::components` gives them, and `OsString`.
-- Repeated separators and inner dots are gone in that view, and `Path` compares by it.
pub mod Laws
use Prim.Native.Char.{code}
use k8s_power_management.Base.{
  ℕ, ◌+◌, ◌*◌, ◌/◌, ◌%◌, String, Bool, true, false, Option, none, some, List, [], ◌∷◌, ◌++◌, ◌&&◌,
  ltb, ◌==◌, if◌then◌else◌,
}

-- A file name: Unicode, or bytes that are no UTF-8.
pub data OsString : Type 0 where
  unicode : String → OsString
  raw : List ℕ → OsString

-- `OsStr::to_str`
abbrev pub to_str : OsString → Option String
to_str (unicode s) = some s
to_str (raw b) = none

pub data Component : Type 0 where
  root_dir cur_dir parent_dir : Component
  normal : OsString → Component

abbrev pub FilePath : Type 0
FilePath = List Component

-- A path below the root, from its names.
abbrev pub names : List String → FilePath
names [] = []
names (n ∷ ns) = normal (unicode n) ∷ names ns

abbrev pub from_root : List String → FilePath
from_root ns = root_dir ∷ names ns

-- `Path::join`: an absolute path replaces, and a leading dot is dropped.
unfoldable pub join : FilePath → FilePath → FilePath
join [] q = q
join p (root_dir ∷ q) = root_dir ∷ q
join p (cur_dir ∷ q) = p ++ q
join p q = p ++ q

-- `join` with one name.
abbrev pub child : FilePath → String → FilePath
child p name = join p (normal (unicode name) ∷ [])

-- `Path::file_name`: the last component, if that is a name.
unfoldable pub file_name : FilePath → Option OsString
file_name [] = none
file_name (normal n ∷ []) = some n
file_name (c ∷ []) = none
file_name (c ∷ d ∷ p) = file_name (d ∷ p)

-- `Path::strip_prefix("/")`
abbrev pub strip_root : FilePath → Option FilePath
strip_root (root_dir ∷ p) = some p
strip_root p = none

-- The bytes of a name; of a text, its UTF-8.
encode : ℕ → List ℕ → List ℕ
encode c rest =
    if ltb c 0x80
    then c ∷ rest
    else if ltb c 0x800
    then (0xc0 + c / 64) ∷ (0x80 + c % 64) ∷ rest
    else if ltb c 0x10000
    then (0xe0 + c / 4096) ∷ (0x80 + c / 64 % 64) ∷ (0x80 + c % 64) ∷ rest
    else (0xf0 + c / 262144)
      ∷ (0x80 + c / 4096 % 64)
      ∷ (0x80 + c / 64 % 64)
      ∷ (0x80 + c % 64)
      ∷ rest

utf8 : String → List ℕ
utf8 String.[] = []
utf8 (String.◌∷◌ c s) = encode (code c) (utf8 s)

os_bytes : OsString → List ℕ
os_bytes (unicode s) = utf8 s
os_bytes (raw b) = b

-- `a ≤ b` for byte strings.
bytes_le : List ℕ → List ℕ → Bool
bytes_le [] b = true
bytes_le (x ∷ a) [] = false
bytes_le (x ∷ a) (y ∷ b) =
    let rest = bytes_le a b in if ltb x y then true else if x == y then rest else false

rank : Component → ℕ
rank root_dir = 0
rank cur_dir = 1
rank parent_dir = 2
rank (normal n) = 3

component_bytes : Component → List ℕ
component_bytes (normal n) = os_bytes n
component_bytes c = []

-- `a ≤ b` and `a == b` for components, by the order in which `Component` declares them.
component_le : Component → Component → Bool
component_le a b =
    if ltb (rank a) (rank b)
    then true
    else if rank a == rank b
    then bytes_le (component_bytes a) (component_bytes b)
    else false

component_eq : Component → Component → Bool
component_eq a b = component_le a b && component_le b a

-- `a ≤ b` for paths: component by component.
unfoldable pub path_le : FilePath → FilePath → Bool
unfolding component_le component_eq rank component_bytes os_bytes utf8 encode bytes_le
path_le [] q = true
path_le (a ∷ p) [] = false
path_le (a ∷ p) (b ∷ q) =
    let rest = path_le p q in if component_eq a b then rest else component_le a b
