-- ===== src/Sysfs/Rooted/Laws.antt =====
-- Lemmas on `RootedSysfs` of crates/cpu-power-hal/src/sysfs.rs, over a file system that behaves
-- well.
use mathlib.Core.List.{append_cancel_left}
use k8s_power_management.Base.{
  String, ◌≡◌, ◌≢◌, refl, sym, ◌∙◌, ap, subst, true, List, [], ◌∷◌, ◌++◌, Result, ok, err, All,
  All-map, All-append, All-of_All, AllPairs, Result-cases, inl, inr, arith, sort_by, sort_by-All,
  sort_by-AllPairs,
}
use k8s_power_management.Text.{trim_newlines}
use k8s_power_management.FilePath.{OsString, normal, root_dir, FilePath, join, path_le}
use k8s_power_management.FilePath.Laws.{IsNormal, IsPlain, join-normal, append-injective_last}
use k8s_power_management.Error.{IoError}
use k8s_power_management.Sysfs.{IsLawful}
use k8s_power_management.Sysfs.Rooted.{
  HostFs, resolve, entries_of, trimmed, read_to_string, write, read_dir, exists, rooted_sysfs,
}

-- No name of a directory is listed twice.
abbrev pub HasDistinctNames : List (Result OsString IoError) → Type 0
HasDistinctNames = AllPairs (λ a b. (n : OsString) → a ≡ ok n → b ≢ ok n)

-- What the documents of the file system promise of a tree without links. A text may come back with
-- final newlines that were not written, as the kernel's attribute files add one.
pub record BehavesWell (fs : HostFs) : Type 0 where
  pub read-write :
      (p : FilePath) (v : String) (s : fs.State)
      → IsPlain p
      → (fs.write p v s).0 ≡ ok tt
      → (text : String) × (fs.read_to_string p (fs.write p v s).1 ≡ ok text)
        × (trim_newlines text ≡ trim_newlines v)
  pub read-write_ne :
      (p q : FilePath) (v : String) (s : fs.State)
      → IsPlain p
      → IsPlain q
      → p ≢ q
      → fs.read_to_string q (fs.write p v s).1 ≡ fs.read_to_string q s
  pub exists-write :
      (p : FilePath) (v : String) (s : fs.State)
      → IsPlain p
      → (fs.write p v s).0 ≡ ok tt
      → fs.exists p (fs.write p v s).1 ≡ true
  pub exists-write_ne :
      (p q : FilePath) (v : String) (s : fs.State)
      → IsPlain p
      → IsPlain q
      → p ≢ q
      → fs.exists q (fs.write p v s).1 ≡ fs.exists q s
  pub read_dir-names :
      (p : FilePath) (s : fs.State) (names : List (Result OsString IoError))
      → IsPlain p
      → fs.read_dir p s ≡ ok names
      → HasDistinctNames names

resolve-plain :
    (r q : FilePath) → All IsNormal q → resolve (root_dir ∷ r) (root_dir ∷ q) ≡ root_dir ∷ (r ++ q)
unfolding resolve join
resolve-plain r [] h = refl
resolve-plain r (c ∷ q) ((n, e), h) = rw e

-- Below a plain root, plain paths lead to plain paths.
resolve-IsPlain : (root p : FilePath) → IsPlain root → IsPlain p → IsPlain (resolve root p)
resolve-IsPlain root p (r, e, h) (q, d, k) =
    (r ++ q, rw (e, d) (resolve-plain r q k), All-append IsNormal r q h k)

-- Different files stay different below a root.
pub resolve-injective :
    (root p q : FilePath)
    → IsPlain root
    → IsPlain p
    → IsPlain q
    → resolve root p ≡ resolve root q
    → p ≡ q
resolve-injective root p q (r, e, _) (a, pa, ka) (b, qb, kb) same =
    let at_root : resolve (root_dir ∷ r) (root_dir ∷ a) ≡ resolve (root_dir ∷ r) (root_dir ∷ b) =
      cc in
    let tails : root_dir ∷ (r ++ a) ≡ root_dir ∷ (r ++ b) =
      sym (resolve-plain r a ka) ∙ at_root ∙ resolve-plain r b kb in
    let same_rest : a ≡ b = append_cancel_left r a b (cc) in cc

entry-IsPlain : (p : FilePath) (n : OsString) → IsPlain p → IsPlain (join p (normal n ∷ []))
entry-IsPlain p n (q, e, h) = (
  q ++ (normal n ∷ []),
  join-normal p n ∙ ap (λ l. l ++ (normal n ∷ [])) e,
  All-append IsNormal q _ h ((n, refl), tt),
)

entry-injective :
    (p : FilePath) (m n : OsString) → join p (normal m ∷ []) ≡ join p (normal n ∷ []) → m ≡ n
entry-injective p m n e =
    let last : normal m ≡ normal n =
      (append-injective_last p p (sym (join-normal p m) ∙ e ∙ join-normal p n)).1 in
    cc

-- The shape of a listing that ends well, one entry at a time.
entries_of-cons :
    (p : FilePath) (r : Result OsString IoError) (names : List (Result OsString IoError))
    (es : List FilePath)
    → entries_of p (r ∷ names) ≡ ok es
    → (n : OsString) × (rest : List FilePath) × (r ≡ ok n)
      × (entries_of p names ≡ ok rest)
      × (es ≡ join p (normal n ∷ []) ∷ rest)
unfolding entries_of
entries_of-cons p (err e) names es h = absurd (cc)
entries_of-cons p (ok n) names es h = elim (Result-cases (entries_of p names)) [
  | inl (rest, e) ↦ (n, rest, refl, e, ground arith)
  | inr (x, e) ↦ absurd (ground arith)
]

entries_of-All :
    (P : FilePath → Type 0) (p : FilePath) (names : List (Result OsString IoError))
    (es : List FilePath)
    → All (λ r. (n : OsString) → r ≡ ok n → P (join p (normal n ∷ []))) names
    → entries_of p names ≡ ok es
    → All P es
unfolding entries_of
entries_of-All P p [] es f h = let nothing : [] ≡ es = cc in subst (All P) nothing tt
entries_of-All P p (r ∷ names) es f h =
    let (n, rest, e, tail, same) = entries_of-cons p r names es h in
    subst (All P) (sym same) (f.0 n e, entries_of-All P p names rest f.1 tail)

entries_of-distinct :
    (p : FilePath) (names : List (Result OsString IoError)) (es : List FilePath)
    → HasDistinctNames names
    → entries_of p names ≡ ok es
    → AllPairs ◌≢◌ es
unfolding entries_of
entries_of-distinct p [] es d h = let nothing : [] ≡ es = cc in subst (AllPairs ◌≢◌) nothing tt
entries_of-distinct p (r ∷ names) es (d, ds) h =
    let (n, rest, e, tail, same) = entries_of-cons p r names es h in
    subst (AllPairs ◌≢◌) (sym same) (
      entries_of-All _ p names rest
          (All-map _ _
            (λ r' differ m e' clash. differ n e (e' ∙ ap ok (sym (entry-injective p n m clash))))
            names d)
          tail,
      entries_of-distinct p names rest ds tail,
    )

module _ (fs : HostFs) (B : BehavesWell fs) (root : FilePath) (plain : IsPlain root) where
  read_dir-good :
      (p : FilePath) (s : fs.State) (es : List FilePath)
      → IsPlain p
      → read_dir fs root p s ≡ ok es
      → All IsPlain es × AllPairs ◌≢◌ es
  unfolding read_dir
  read_dir-good p s es h e = elim (Result-cases (fs.read_dir (resolve root p) s)) [
    | inr (x, failed) ↦ absurd (ground arith)
    | inl (names, found) ↦ elim (Result-cases (entries_of p names)) [
      | inr (x, failed) ↦ absurd (ground arith)
      | inl (unsorted, ends) ↦
          let same : sort_by path_le unsorted ≡ es = ground arith in
          subst (λ l. All IsPlain l × AllPairs ◌≢◌ l) same
            (
              sort_by-All path_le IsPlain unsorted (
                  entries_of-All IsPlain p names unsorted
                    (All-of_All _ (λ r n _. entry-IsPlain p n h) names) ends),
              sort_by-AllPairs path_le ◌≢◌ (λ a b differ q. differ (sym q)) unsorted
                  (entries_of-distinct p names unsorted
                    (B.read_dir-names (resolve root p) s names (resolve-IsPlain root p plain h)
                      found)
                    ends),
            )
    ]
  ]

  read-write_trimmed :
      (p : FilePath) (v : String) (s : fs.State)
      → IsPlain p
      → (write fs root p v s).0 ≡ ok tt
      → read_to_string fs root p (write fs root p v s).1 ≡ ok (trim_newlines v)
  unfolding read_to_string write
  read-write_trimmed p v s h done =
      let (text, back, same) =
        B.read-write (resolve root p) v s (resolve-IsPlain root p plain h) done in
      rw back (ap ok same)

  -- `RootedSysfs` over a file system that behaves well is lawful, at any plain root: in production
  -- at `/`, and in a test at its directory.
  pub rooted_sysfs-IsLawful : IsLawful (rooted_sysfs fs root)
  unfolding read_to_string write exists
  rooted_sysfs-IsLawful = record {
    read-write = read-write_trimmed;
    read-write_ne = λ p q v s hp hq ne. ap trimmed (
        B.read-write_ne (resolve root p) (resolve root q) v s (resolve-IsPlain root p plain hp)
          (resolve-IsPlain root q plain hq) (λ e. ne (resolve-injective root p q plain hp hq e)));
    exists-write =
        λ p v s hp done. B.exists-write (resolve root p) v s (resolve-IsPlain root p plain hp) done;
    exists-write_ne = λ p q v s hp hq ne.
        B.exists-write_ne (resolve root p) (resolve root q) v s (resolve-IsPlain root p plain hp)
          (resolve-IsPlain root q plain hq) (λ e. ne (resolve-injective root p q plain hp hq e));
    read_dir-entries = read_dir-good;
  }
