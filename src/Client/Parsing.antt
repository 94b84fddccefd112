-- ===== src/Client/Parsing.antt =====
-- How the client reads a line of the user: `get_command` of src/client/client.c.
use inf01151_trabalho_final.Base.{
  ℕ, zero, suc, ◌+◌, ◌≤◌, ◌<◌, ◌≡◌, ◌≢◌, refl, ap, sym, ◌∙◌, true, false, some, [], ◌∷◌, ◌++◌,
  append_assoc, arith, Bytes, Lacks, All, All-append, length, length-append, eqb_ne,
}
use inf01151_trabalho_final.Text.{is_space, skip_space}
use inf01151_trabalho_final.Client.{fgets, cut_newline, word, scan_command, get_command}

-- A byte of a word on a command line.
abbrev pub IsLetter : ℕ → Type 0
IsLetter c = (is_space c ≡ false) × (c ≢ 0)

abbrev pub IsWord : Bytes → Type 0
IsWord = All IsLetter

letter-ne-newline : (c : ℕ) → IsLetter c → c ≢ b'\n'
letter-ne-newline c h e = ground arith

word-Lacks-newline : (s : Bytes) → IsWord s → Lacks b'\n' s
word-Lacks-newline [] h = tt
word-Lacks-newline (c ∷ s) h = (letter-ne-newline c h.0, word-Lacks-newline s h.1)

pub word-Lacks-zero : (s : Bytes) → IsWord s → Lacks 0 s
word-Lacks-zero [] h = tt
word-Lacks-zero (c ∷ s) h = (h.0.1, word-Lacks-zero s h.1)

fgets_line :
    (n : ℕ) (line rest : Bytes)
    → length line < n
    → Lacks b'\n' line
    → fgets n (line ++ b'\n' ∷ rest) ≡ (line ++ b'\n' ∷ [], rest)
unfolding fgets
fgets_line zero line rest h lacks = absurd (omega arith)
fgets_line (suc n) [] rest h lacks = refl
fgets_line (suc n) (c ∷ line) rest h lacks =
    rw (eqb_ne lacks.0)
      (ap (λ (r : Bytes × Bytes). (c ∷ r.0, r.1)) (fgets_line n line rest (omega arith) lacks.1))

cut_newline_line :
    (line : Bytes) → Lacks b'\n' line → Lacks 0 line → cut_newline (line ++ b'\n' ∷ []) ≡ line
unfolding cut_newline
cut_newline_line [] h z = refl
cut_newline_line (c ∷ line) h z =
    rw (eqb_ne h.0, eqb_ne z.0) (ap (λ t. c ∷ t) (cut_newline_line line h.1 z.1))

-- A word is taken up to the white space behind it.
word_before :
    (n : ℕ) (w rest : Bytes) (c : ℕ)
    → length w ≤ n
    → IsWord w
    → is_space c ≡ true
    → word n (w ++ c ∷ rest) ≡ (w, c ∷ rest)
unfolding word
word_before zero [] rest c h ws sp = refl
word_before (suc n) [] rest c h ws sp = rw sp refl
word_before zero (b ∷ w) rest c h ws sp = absurd (omega arith)
word_before (suc n) (b ∷ w) rest c h ws sp =
    rw (ws.0.0)
      (ap (λ (r : Bytes × Bytes). (b ∷ r.0, r.1)) (word_before n w rest c (omega arith) ws.1 sp))

word_all : (n : ℕ) (w : Bytes) → length w ≤ n → IsWord w → word n w ≡ (w, [])
unfolding word
word_all zero [] h ws = refl
word_all (suc n) [] h ws = refl
word_all zero (b ∷ w) h ws = absurd (omega arith)
word_all (suc n) (b ∷ w) h ws =
    rw (ws.0.0) (ap (λ (r : Bytes × Bytes). (b ∷ r.0, r.1)) (word_all n w (omega arith) ws.1))

skip_none : (w : Bytes) → IsWord w → skip_space w ≡ w
unfolding skip_space
skip_none [] ws = refl
skip_none (c ∷ w) ws = rw (ws.0.0) refl

skip_blank : (w : Bytes) → IsWord w → skip_space (32 ∷ w) ≡ w
unfolding skip_space
skip_blank w ws = skip_none w ws

skip_word : (c : ℕ) (s : Bytes) → IsLetter c → skip_space (c ∷ s) ≡ c ∷ s
unfolding skip_space
skip_word c s h = rw (h.0) refl

scan_command_lem :
    (c : ℕ) (command arg : Bytes)
    → IsWord (c ∷ command)
    → IsWord arg
    → length (c ∷ command) ≤ 12
    → length arg ≤ 114
    → scan_command ((c ∷ command) ++ 32 ∷ arg) ≡ (c ∷ command, arg)
unfolding scan_command
scan_command_lem c command arg wc wa hc ha =
    rw
      (
        skip_word c (command ++ 32 ∷ arg) wc.0,
        word_before 12 (c ∷ command) arg 32 hc wc refl,
        skip_blank arg wa,
        word_all 114 arg ha wa,
        scan_command,
      )
      refl

-- The line `command arg` is read as these two words, and nothing behind the line is lost.
pub get_command_lem :
    (c : ℕ) (command arg rest : Bytes)
    → IsWord (c ∷ command)
    → IsWord arg
    → length (c ∷ command) ≤ 12
    → length arg ≤ 114
    → length (c ∷ command) + length arg ≤ 125
    → get_command ((c ∷ command) ++ 32 ∷ (arg ++ b'\n' ∷ rest)) ≡ some (c ∷ command, arg, rest)
unfolding get_command
get_command_lem c command arg rest wc wa hc ha h =
    let line = (c ∷ command) ++ 32 ∷ arg in
    let no_newline : Lacks b'\n' line =
      All-append _ (c ∷ command) _ (word-Lacks-newline (c ∷ command) wc)
        (omega arith, word-Lacks-newline arg wa) in
    let no_zero : Lacks 0 line =
      All-append _ (c ∷ command) _ (word-Lacks-zero (c ∷ command) wc)
        (omega arith, word-Lacks-zero arg wa) in
    let read : fgets 127 ((c ∷ command) ++ 32 ∷ (arg ++ b'\n' ∷ rest))
        ≡ (line ++ b'\n' ∷ [], rest) =
      ap (fgets 127) (sym (append_assoc (c ∷ command) (32 ∷ arg) (b'\n' ∷ rest)))
      ∙ fgets_line 127 line rest (omega (arith, length-append (c ∷ command) (32 ∷ arg)))
          no_newline in
    ap (λ (r : Bytes × Bytes). let (w, a) = scan_command (cut_newline r.0) in some (w, a, r.1)) read
    ∙ ap (λ (w : Bytes × Bytes). some (w.0, w.1, rest))
        (ap scan_command (cut_newline_line line no_newline no_zero)
          ∙ scan_command_lem c command arg wc wa hc ha)
