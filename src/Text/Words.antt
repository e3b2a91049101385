-- ===== src/Text/Words.antt =====
-- Prefixes and words of a text.
use text.Mathlib.TextLemmas.{nil-append, cons-append}
use text.Mathlib.TextEquality.{Char-path}
use Prim.Native.Char.{code}
use k8s_power_management.Base.{
  Option, ◌==◌, ℕ, String, ◌<>◌, ◌≡◌, ◌↔◌, inl, inr, refl, sym, some, true, List, [], ◌∷◌, ◌++◌,
  arith, ap, Bool-cases, In, any, str_eq, str_eq-cases,
}
use k8s_power_management.Text.{strip_prefix, begins_with, contains}

pub strip_prefix-append : (p s : String) → strip_prefix (p <> s) p ≡ some s
unfolding strip_prefix
strip_prefix-append String.[] s = rw nil-append
strip_prefix-append (String.◌∷◌ c p) s = rw cons-append (ground (arith, strip_prefix-append p s))

some_inj : {s t : String} → ◌≡◌ {A = Option String} (some s) (some t) → s ≡ t
some_inj e = cc

same_code : (a b : ℕ) → (a == b) ≡ true → a ≡ b
same_code a b h = ground arith

pub strip_prefix_sound : (s p t : String) → strip_prefix s p ≡ some t → s ≡ p <> t
unfolding strip_prefix
strip_prefix_sound s String.[] t e = rw nil-append (some_inj e)
strip_prefix_sound String.[] (String.◌∷◌ d p) t e = cc
strip_prefix_sound (String.◌∷◌ c s) (String.◌∷◌ d p) t e = elim (Bool-cases (code c == code d)) [
  | inl same ↦
      let head : c ≡ d = Char-path c d (same_code (code c) (code d) same) in
      let rest : s ≡ p <> t = strip_prefix_sound s p t (rw (same) at e) in
      rw cons-append (rw (head, rest) refl)
  | inr differ ↦ absurd (let broken = (rw (differ) at e) in cc)
]

-- `iter().any(|v| v == value)` tests membership.
pub any-str_eq :
    (value : String) (l : List String) → (any (λ v. str_eq v value) l ≡ true) ↔ In value l
any-str_eq value [] = (λ h. cc, λ m. absurd m)
any-str_eq value (x ∷ l) = elim (str_eq-cases x value) [
  | inl (same, e) ↦ (λ h. inl (sym e), λ m. rw same)
  | inr (differ, ne) ↦ rw differ (
    λ h. inr ((any-str_eq value l).0 h),
    elim [ inl e ↦ absurd (ne (sym e)) | inr m ↦ (any-str_eq value l).1 m ],
  )
]

-- `needle` stands somewhere in `s`.
abbrev pub Infix : List ℕ → List ℕ → Type 0
Infix needle s = (before : List ℕ) × (after : List ℕ) × (s ≡ before ++ (needle ++ after))

begins_with_iff :
    (s needle : List ℕ) → (begins_with s needle ≡ true) ↔ ((after : List ℕ) × (s ≡ needle ++ after))
begins_with_iff s [] = (λ h. (s, refl), λ _. refl)
begins_with_iff [] (p ∷ ps) = (λ h. cc, λ (after, e). cc)
begins_with_iff (c ∷ s) (p ∷ ps) = (
  λ h.
      let (after, e) = (begins_with_iff s ps).0 (ground arith) in (after, cons_eq (ground arith) e),
  λ (after, e).
      let rest = (begins_with_iff s ps).1 (after, cc) in let same : c ≡ p = cc in ground arith,
)
  where
    cons_eq : {x y : ℕ} {xs ys : List ℕ} → x ≡ y → xs ≡ ys → (x ∷ xs) ≡ (y ∷ ys)
    cons_eq p q = cc

begins→contains : (s needle : List ℕ) → begins_with s needle ≡ true → contains s needle ≡ true
unfolding contains
begins→contains [] needle h = h
begins→contains (c ∷ s) needle h = ground arith

Infix→contains :
    (s needle before after : List ℕ) → s ≡ before ++ (needle ++ after) → contains s needle ≡ true
unfolding contains
Infix→contains s needle [] after e =
    begins→contains s needle ((begins_with_iff s needle).1 (after, e))
Infix→contains [] needle (x ∷ before) after e = cc
Infix→contains (c ∷ s) needle (x ∷ before) after e =
    let later : contains s needle ≡ true = Infix→contains s needle before after (cc) in ground arith

contains→Infix : (s needle : List ℕ) → contains s needle ≡ true → Infix needle s
unfolding contains
contains→Infix [] needle h = let (after, e) = (begins_with_iff [] needle).0 h in ([], after, e)
contains→Infix (c ∷ s) needle h = elim (Bool-cases (begins_with (c ∷ s) needle)) [
  | inl here ↦ let (after, e) = (begins_with_iff (c ∷ s) needle).0 here in ([], after, e)
  | inr later ↦
      let (before, after, e) = contains→Infix s needle (ground arith) in
      (c ∷ before, after, ap (λ l. c ∷ l) e)
]

-- `contains` finds a text that stands anywhere, and nothing else.
pub contains_iff : (s needle : List ℕ) → (contains s needle ≡ true) ↔ Infix needle s
contains_iff s needle =
    (contains→Infix s needle, λ (before, after, e). Infix→contains s needle before after e)
