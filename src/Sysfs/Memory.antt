-- ===== src/Sysfs/Memory.antt =====
-- A file system in memory, with which the theorems are run: files that exist and take any text, and
-- the listings of directories. Like a tree of kernel attributes, it creates no file.
use native.Mathlib.Decide.{ℕ_discrete}
use mathlib.Core.Bool.{Bool-discrete}
use mathlib.Core.Logic.{dite, ite, if_pos, if_neg}
use k8s_power_management.Base.{
  String, ◌≡◌, ◌≢◌, refl, ap, subst, All, AllPairs, Bool, true, false, Option, none, some, List, [],
  ◌∷◌, Result, ok, err, str_eq, eq_iff,
}
use k8s_power_management.FilePath.{FilePath, OsString}
use k8s_power_management.Error.{IoError}
use k8s_power_management.Sysfs.Rooted.{HostFs}
use k8s_power_management.Sysfs.Rooted.Laws.{HasDistinctNames, BehavesWell}

unfoldable String_discrete : Discrete String
String_discrete s t =
    dite (Bool-discrete (str_eq s t) true) (λ same. yes ((eq_iff s t).0 same))
      (λ differ. no (λ e. differ ((eq_iff s t).1 e)))

unfoldable pub FilePath_discrete : Discrete FilePath
unfolding String_discrete
FilePath_discrete = hlevel (String_discrete, ℕ_discrete)

-- The texts of the files that exist.
abbrev pub Disk : Type 0
Disk = FilePath → Option String

-- A disk from its files.
abbrev pub files_of : List (FilePath × String) → Disk
files_of [] q = none
files_of ((p, text) ∷ rest) q = ite (FilePath_discrete p q) (some text) (files_of rest q)

abbrev missing : IoError
missing = record { message = "No such file or directory (os error 2)" }

abbrev or_missing {ℓ} : {A : Type ℓ} → Option A → Result A IoError
or_missing none = err missing
or_missing (some a) = ok a

abbrev pub put : FilePath → String → (FilePath → Option String) → FilePath → Option String
put p v files q = ite (FilePath_discrete p q) (some v) (files q)

abbrev write_file : Option String → FilePath → String → Disk → Result (Unit {0}) IoError × Disk
write_file none p v d = (err missing, d)
write_file (some old) p v d = (ok tt, put p v d)

abbrev good : List OsString → List (Result OsString IoError)
good [] = []
good (n ∷ ns) = ok n ∷ good ns

abbrev list_names : Option (List OsString) → Result (List (Result OsString IoError)) IoError
list_names none = err missing
list_names (some ns) = ok (good ns)

abbrev is_there : Option String → Option (List OsString) → Bool
is_there none none = false
is_there (some text) _ = true
is_there none (some names) = true

-- The directories are fixed.
abbrev pub memory_fs : (FilePath → Option (List OsString)) → HostFs
memory_fs listings = record {
  State = Disk;
  read_to_string = λ p d. or_missing (d p);
  write = λ p v d. write_file (d p) p v d;
  read_dir = λ p d. list_names (listings p);
  exists = λ p d. is_there (d p) (listings p);
}

put_self : (p : FilePath) (v : String) (d : Disk) → put p v d p ≡ some v
put_self p v d = if_pos (FilePath_discrete p p) refl (some v) (d p)

put-ne : (p q : FilePath) (v : String) (d : Disk) → p ≢ q → put p v d q ≡ d q
put-ne p q v d h = if_neg (FilePath_discrete p q) h (some v) (d q)

good-apart :
    (n : OsString) (ns : List OsString)
    → All (λ m. n ≢ m) ns
    → All
        (λ (b : Result OsString IoError).
          (k : OsString) → ◌≡◌ {A = Result OsString IoError} (ok n) (ok k) → b ≢ ok k)
        (good ns)
good-apart n [] h = tt
good-apart n (m ∷ ns) h = (λ k e f. h.0 (same_name n m k e f), good-apart n ns h.1)
  where
    same_name :
        (n m k : OsString)
        → ◌≡◌ {A = Result OsString IoError} (ok n) (ok k)
        → ◌≡◌ {A = Result OsString IoError} (ok m) (ok k)
        → n ≡ m
    same_name n m k e f = cc

good-distinct : (ns : List OsString) → AllPairs ◌≢◌ ns → HasDistinctNames (good ns)
good-distinct [] h = tt
good-distinct (n ∷ ns) (d, ds) = (good-apart n ns d, good-distinct ns ds)

write_file_self :
    (o : Option String) (p : FilePath) (v : String) (d : Disk)
    → (write_file o p v d).0 ≡ ok tt
    → (write_file o p v d).1 p ≡ some v
write_file_self none p v d h = cc
write_file_self (some old) p v d h = put_self p v d

write_file-ne :
    (o : Option String) (p q : FilePath) (v : String) (d : Disk)
    → p ≢ q
    → (write_file o p v d).1 q ≡ d q
write_file-ne none p q v d ne = refl
write_file-ne (some old) p q v d ne = put-ne p q v d ne

list_names-distinct :
    (o : Option (List OsString)) (names : List (Result OsString IoError))
    → ((ns : List OsString) → o ≡ some ns → AllPairs ◌≢◌ ns)
    → list_names o ≡ ok names
    → HasDistinctNames names
list_names-distinct none names f e = absurd (cc)
list_names-distinct (some ns) names f e =
    let same : good ns ≡ names = cc in subst HasDistinctNames same (good-distinct ns (f ns refl))

module _ (listings : FilePath → Option (List OsString))
    (distinct : (p : FilePath) (ns : List OsString) → listings p ≡ some ns → AllPairs ◌≢◌ ns) where
  pub memory_fs-BehavesWell : BehavesWell (memory_fs listings)
  memory_fs-BehavesWell = record {
    read-write = λ p v d plain done. (v, ap or_missing (write_file_self (d p) p v d done), refl);
    read-write_ne = λ p q v d hp hq ne. ap or_missing (write_file-ne (d p) p q v d ne);
    exists-write =
        λ p v d hp done. ap (λ o. is_there o (listings p)) (write_file_self (d p) p v d done);
    exists-write_ne =
        λ p q v d hp hq ne. ap (λ o. is_there o (listings q)) (write_file-ne (d p) p q v d ne);
    read_dir-names = λ p d names hp e. list_names-distinct (listings p) names (distinct p) e;
  }
