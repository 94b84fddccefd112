-- ===== src/Text/Tokens.antt =====
-- What `strtok_r` and `strchr` cut off a text.
use inf01151_trabalho_final.Base.{
  ℕ, ◌≡◌, ◌≢◌, refl, ap, ◌∙◌, none, some, [], ◌∷◌, ◌++◌, arith, Bytes, Lacks, eqb_ne, eqb_refl,
}
use inf01151_trabalho_final.Text.{skip, cut, token_of, strtok, strchr}

cut_all : (d : ℕ) (s : Bytes) → Lacks d s → cut d s ≡ (s, [])
unfolding cut
cut_all d [] h = refl
cut_all d (c ∷ s) h = ground (arith, cut_all d s h.1)

cut_at : (d : ℕ) (s rest : Bytes) → Lacks d s → cut d (s ++ d ∷ rest) ≡ (s, rest)
unfolding cut
cut_at d [] rest h = ground arith
cut_at d (c ∷ s) rest h = ground (arith, cut_at d s rest h.1)

skip_none : (d c : ℕ) (s : Bytes) → c ≢ d → skip d (c ∷ s) ≡ c ∷ s
unfolding skip
skip_none d c s h = rw (eqb_ne h)

-- The token up to the next delimiter.
pub strtok_at :
    (d : ℕ) (s rest : Bytes) → s ≢ [] → Lacks d s → strtok d (s ++ d ∷ rest) ≡ some (s, rest)
unfolding strtok
strtok_at d [] rest ne h = absurd (ne refl)
strtok_at d (c ∷ s) rest ne h =
    ap (token_of d) (skip_none d c (s ++ d ∷ rest) h.0) ∙ ap some (cut_at d (c ∷ s) rest h)

-- The last token.
pub strtok_all : (d : ℕ) (s : Bytes) → s ≢ [] → Lacks d s → strtok d s ≡ some (s, [])
unfolding strtok
strtok_all d [] ne h = absurd (ne refl)
strtok_all d (c ∷ s) ne h = ap (token_of d) (skip_none d c s h.0) ∙ ap some (cut_all d (c ∷ s) h)

-- Delimiters in front of a token are skipped.
pub strtok_skip : (d : ℕ) (s : Bytes) → strtok d (d ∷ s) ≡ strtok d s
unfolding strtok skip
strtok_skip d s = rw (eqb_refl d)

pub strtok-nil : (d : ℕ) → strtok d [] ≡ none
unfolding strtok skip
strtok-nil d = refl

pub strchr_at : (d : ℕ) (s rest : Bytes) → Lacks d s → strchr d (s ++ d ∷ rest) ≡ some (s, rest)
unfolding strchr
strchr_at d [] rest h = ground arith
strchr_at d (c ∷ s) rest h = rw (eqb_ne h.0, strchr_at d s rest h.1, strchr)
