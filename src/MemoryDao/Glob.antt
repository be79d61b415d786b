-- ===== src/MemoryDao/Glob.antt =====
-- src/server/auth/memory_dao.rs: `glob_match`, and the relation that it decides.
use nebula_id.Prelude.{
  ℕ, ◌≡◌, refl, ◌↔◌, Bool, true, false, ◌||◌, List, [], ◌∷◌, ◌++◌, arith, ◌==◌, if◌then◌else◌,
  ==_iff, ==_self, Bool-cases, inl, inr, subst, ap, sym,
}
use nebula_id.Prelude.Assoc.{Eq}

abbrev pub Text : Type 0
Text = List ℕ

abbrev pub same_text : Text → Text → Bool
same_text [] [] = true
same_text [] (y ∷ ys) = false
same_text (x ∷ xs) [] = false
same_text (x ∷ xs) (y ∷ ys) = if x == y then same_text xs ys else false

pub same_text_iff : (a b : Text) → (same_text a b ≡ true) ↔ (a ≡ b)
same_text_iff [] [] = ground arith
same_text_iff [] (y ∷ ys) = ground arith
same_text_iff (x ∷ xs) [] = ground arith
same_text_iff (x ∷ xs) (y ∷ ys) = ground (arith, same_text_iff xs ys, ==_iff x y)

instance abbrev pub text_eq : Eq Text
text_eq = record { same = same_text; same_iff = same_text_iff }

-- The loop over `skip`: some suffix of the text passes.
any_suffix : (Text → Bool) → Text → Bool
any_suffix test [] = test []
any_suffix test (x ∷ xs) = test (x ∷ xs) || any_suffix test xs

abbrev pub star : ℕ
star = 42

abbrev pub question : ℕ
question = 63

-- A character of the pattern other than a star, and the match of what follows.
match_one : ℕ → (Text → Bool) → Text → Bool
match_one c rest [] = false
match_one c rest (x ∷ t) = if c == question then rest t else if x == c then rest t else false

-- The source's indices stand for what is left of the two texts.
unfoldable pub glob_match : Text → Text → Bool
unfolding any_suffix match_one
glob_match [] [] = true
glob_match [] (x ∷ t) = false
glob_match (c ∷ p) t =
    if c == star then any_suffix (glob_match p) t else match_one c (glob_match p) t

-- `*` stands for any text, `?` for one character, and any other character for itself.
pub data Matches : Text → Text → Type 0 where
  empty : Matches [] []
  any : (p skipped t : Text) → Matches p t → Matches (star ∷ p) (skipped ++ t)
  one : (p : Text) (x : ℕ) (t : Text) → Matches p t → Matches (question ∷ p) (x ∷ t)
  itself : (c : ℕ) (p t : Text) → Matches p t → Matches (c ∷ p) (c ∷ t)

any_suffix-skipped :
    (test : Text → Bool) (skipped t : Text) → test t ≡ true → any_suffix test (skipped ++ t) ≡ true
unfolding any_suffix
any_suffix-skipped test [] [] h = h
any_suffix-skipped test [] (x ∷ t) h = rw h refl
any_suffix-skipped test (x ∷ skipped) t h = ground (arith, any_suffix-skipped test skipped t h)

-- Every match of the relation is found, by induction on the match.
glob_match_complete : (p t : Text) → Matches p t → glob_match p t ≡ true
unfolding glob_match
glob_match_complete _ _ empty = refl
glob_match_complete _ _ (any p skipped t m) =
    any_suffix-skipped (glob_match p) skipped t (glob_match_complete p t m)
glob_match_complete _ _ (one p x t m) = glob_match_complete p t m
glob_match_complete _ _ (itself c p t m) =
    let rest = glob_match_complete p t m in
    ground (arith, rest, ==_self c, any_suffix-skipped (glob_match p) (c ∷ []) t rest)

any_suffix-split :
    (test : Text → Bool) (t : Text)
    → any_suffix test t ≡ true
    → (skipped : Text) × (rest : Text) × (skipped ++ rest ≡ t) × (test rest ≡ true)
unfolding any_suffix
any_suffix-split test [] h = ([], [], refl, h)
any_suffix-split test (x ∷ t) h = elim (Bool-cases (test (x ∷ t))) [
  | inl found ↦ ([], x ∷ t, refl, found)
  | inr later ↦
      let (skipped, rest, e, found) = any_suffix-split test t (go later) in
      (x ∷ skipped, rest, ap (λ u. x ∷ u) e, found)
]
  where
    go : test (x ∷ t) ≡ false → any_suffix test t ≡ true
    go later = ground arith

match_one-split :
    (c : ℕ) (p t : Text)
    → ((u : Text) → glob_match p u ≡ true → Matches p u)
    → match_one c (glob_match p) t ≡ true
    → Matches (c ∷ p) t
unfolding match_one
match_one-split c p [] sound h = absurd (grind arith)
match_one-split c p (x ∷ t) sound h = elim (Bool-cases (c == question)) [
  | inl wild ↦
      subst (λ d. Matches (d ∷ p) (x ∷ t)) (sym ((==_iff c question).0 wild))
        (one p x t (sound t (under wild)))
  | inr plain ↦ elim (Bool-cases (x == c)) [
    | inl same ↦
        subst (λ d. Matches (c ∷ p) (d ∷ t)) (sym ((==_iff x c).0 same))
          (itself c p t (sound t (equal plain same)))
    | inr other ↦ absurd (differ plain other)
  ]
]
  where
    under : (c == question) ≡ true → glob_match p t ≡ true
    under wild = ground arith

    equal : (c == question) ≡ false → (x == c) ≡ true → glob_match p t ≡ true
    equal plain same = ground arith

    differ : (c == question) ≡ false → (x == c) ≡ false → ⊥
    differ plain other = ground arith

glob_match_sound : (p t : Text) → glob_match p t ≡ true → Matches p t
unfolding glob_match
glob_match_sound [] [] h = empty
glob_match_sound [] (x ∷ t) h = absurd (grind arith)
glob_match_sound (c ∷ p) t h = elim (Bool-cases (c == star)) [
  | inl wild ↦
      let (skipped, rest, e, found) = any_suffix-split (glob_match p) t (under wild) in
      subst (λ d. Matches (d ∷ p) t) (sym ((==_iff c star).0 wild))
        (subst (Matches (star ∷ p)) e (any p skipped rest (glob_match_sound p rest found)))
  | inr plain ↦ match_one-split c p t (glob_match_sound p) (else_part plain)
]
  where
    under : (c == star) ≡ true → any_suffix (glob_match p) t ≡ true
    under wild = ground arith

    else_part : (c == star) ≡ false → match_one c (glob_match p) t ≡ true
    else_part plain = ground arith

-- The matcher answers yes exactly where the pattern matches: `*` stands for any text, `?` for one
-- character, and any other character for itself.
pub glob_match_iff : (p t : Text) → (glob_match p t ≡ true) ↔ Matches p t
glob_match_iff p t = (glob_match_sound p t, glob_match_complete p t)
