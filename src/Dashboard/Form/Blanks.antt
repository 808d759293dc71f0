-- ===== src/Dashboard/Form/Blanks.antt =====
-- What `trim` takes off a text, and what it leaves.
use mathlib.Core.List.{reverse, reverse-append, reverse-cons, reverse-reverse}
use mathlib.Core.Path.{subst}
use chirpstack_simulator.Prelude.{
  Text, All, ◌∷◌, ℕ, trim_start, is_space, ◌≡◌, Bool-cases, All-reverse, false, inl, [], true, inr,
  ◌++◌, ap, refl, trim, sym, ◌∙◌,
}

abbrev pub AreBlank : Text → Type 0
AreBlank s = All (λ (c : ℕ). is_space c ≡ true) s

-- A text that is not empty, and neither starts nor ends with a blank.
pub record IsBare (s : Text) : Type 0 where
  pub first : ℕ
  pub rest : Text
  pub starts : s ≡ first ∷ rest
  pub first_bare : is_space first ≡ false
  pub front : Text
  pub last : ℕ
  pub ends : s ≡ front ++ last ∷ []
  pub last_bare : is_space last ≡ false

-- The blanks at the start of a text, and what follows them.
data Split : Text → Type 0 where
  all_blank : {s : Text} → AreBlank s → trim_start s ≡ [] → Split s
  behind :
      {s : Text} (blanks : Text) (c : ℕ) (rest : Text)
      → AreBlank blanks
      → is_space c ≡ false
      → s ≡ blanks ++ c ∷ rest
      → trim_start s ≡ c ∷ rest
      → Split s

Split-cons : (c : ℕ) (s : Text) → is_space c ≡ true → Split s → Split (c ∷ s)
Split-cons c s e (all_blank blank t) = all_blank (e, blank) (rw e t)
Split-cons c s e (behind blanks d rest blank bare k t) =
    behind (c ∷ blanks) d rest (e, blank) bare (ap (c ∷◌) k) (rw e t)

every-Split : (s : Text) → Split s
every-Split [] = all_blank tt refl
every-Split (c ∷ s) =
    let later = every-Split s in
    elim (Bool-cases (is_space c)) [
      | inl e ↦ Split-cons c s e later
      | inr e ↦ behind [] c s tt e refl (rw e refl)
    ]

-- What `trim` gives: nothing for a text of blanks, and else the bare text between the blanks.
pub data Trimmed : Text → Type 0 where
  nothing : {s : Text} → AreBlank s → trim s ≡ [] → Trimmed s
  between :
      {s : Text} (front body back : Text)
      → AreBlank front
      → AreBlank back
      → IsBare body
      → s ≡ front ++ (body ++ back)
      → trim s ≡ body
      → Trimmed s

body-IsBare :
    (c : ℕ) (rest body back front : Text) (last : ℕ)
    → is_space c ≡ false
    → is_space last ≡ false
    → body ≡ front ++ last ∷ []
    → c ∷ rest ≡ body ++ back
    → IsBare body
body-IsBare c rest [] back [] last bare last_bare ends e = absurd cc
body-IsBare c rest [] back (x ∷ front) last bare last_bare ends e = absurd cc
body-IsBare c rest (x ∷ body) back front last bare last_bare ends e =
    let same : c ≡ x = cc in
    record {
      first = x;
      rest = body;
      starts = refl;
      first_bare = ap is_space (sym same) ∙ bare;
      front = front;
      last = last;
      ends = ends;
      last_bare = last_bare;
    }

Trimmed-behind :
    (s blanks : Text) (c : ℕ) (rest : Text)
    → AreBlank blanks
    → is_space c ≡ false
    → s ≡ blanks ++ c ∷ rest
    → trim_start s ≡ c ∷ rest
    → Split (reverse (c ∷ rest))
    → Trimmed s
Trimmed-behind s blanks c rest blank bare k t (all_blank none_left e) =
    let back : AreBlank (c ∷ rest) =
      subst AreBlank (reverse-reverse (c ∷ rest))
        (All-reverse (λ (x : ℕ). is_space x ≡ true) (reverse (c ∷ rest)) none_left) in
    absurd (cc back.0)
Trimmed-behind s blanks c rest blank bare k t (behind after d more after_blank d_bare q u) =
    let body = reverse (d ∷ more) in
    let whole : c ∷ rest ≡ body ++ reverse after =
      sym (reverse-reverse (c ∷ rest)) ∙ ap reverse q ∙ reverse-append after (d ∷ more) in
    between blanks body (reverse after) blank
      (All-reverse (λ (x : ℕ). is_space x ≡ true) after after_blank)
      (body-IsBare c rest body (reverse after) (reverse more) d bare d_bare (reverse-cons d more)
        whole)
      (k ∙ ap (λ (x : Text). blanks ++ x) whole) (rw (t, u) refl)

pub trimmed : (s : Text) → Trimmed s
trimmed s = elim (every-Split s) [
  | all_blank blank t ↦ nothing blank (rw t refl)
  | behind blanks c rest blank bare k t ↦
      Trimmed-behind s blanks c rest blank bare k t (every-Split (reverse (c ∷ rest)))
]
