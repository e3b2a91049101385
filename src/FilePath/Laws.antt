-- ===== src/FilePath/Laws.antt =====
-- Lemmas on plain absolute paths: the root and then names, with no dots.
use k8s_power_management.Base.{String, ◌≡◌, List, [], ◌∷◌, ◌++◌, All, All-append, refl, sym, ◌∙◌}
use k8s_power_management.FilePath.{
  OsString, unicode, Component, root_dir, normal, FilePath, names, from_root, join, child,
}

abbrev pub IsNormal : Component → Type 0
IsNormal c = (n : OsString) × (c ≡ normal n)

abbrev pub IsPlain : FilePath → Type 0
IsPlain p = (q : FilePath) × (p ≡ root_dir ∷ q) × All IsNormal q

pub join-normal : (p : FilePath) (n : OsString) → join p (normal n ∷ []) ≡ p ++ (normal n ∷ [])
unfolding join
join-normal [] n = refl
join-normal (c ∷ p) n = refl

names-IsNormal : (ns : List String) → All IsNormal (names ns)
names-IsNormal [] = tt
names-IsNormal (n ∷ ns) = ((unicode n, refl), names-IsNormal ns)

-- The constant paths of the crates are plain.
pub from_root-IsPlain : (ns : List String) → IsPlain (from_root ns)
from_root-IsPlain ns = (names ns, refl, names-IsNormal ns)

pub child-IsPlain : (p : FilePath) (name : String) → IsPlain p → IsPlain (child p name)
child-IsPlain p name (q, e, h) = (
  q ++ (normal (unicode name) ∷ []),
  rw join-normal (rw e),
  All-append IsNormal q _ h ((unicode name, refl), tt),
)

pub append-injective_last :
    (p q : FilePath) {a b : Component} → p ++ (a ∷ []) ≡ q ++ (b ∷ []) → (p ≡ q) × (a ≡ b)
append-injective_last [] [] e = (refl, cc)
append-injective_last [] (d ∷ []) e = cc
append-injective_last [] (d ∷ d' ∷ q) e = cc
append-injective_last (c ∷ []) [] e = cc
append-injective_last (c ∷ c' ∷ p) [] e = cc
append-injective_last (c ∷ p) (d ∷ q) e =
    let (tails, lasts) = append-injective_last p q (cc) in (cc, lasts)

-- Files of different names, or in different directories, are different.
pub child-injective : (p q : FilePath) (m n : String) → child p m ≡ child q n → (p ≡ q) × (m ≡ n)
child-injective p q m n e =
    let (dirs, names) =
      append-injective_last p q (sym (join-normal p (unicode m)) ∙ e ∙ join-normal q (unicode n)) in
    (dirs, cc)
