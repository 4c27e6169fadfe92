-- ===== src/SqlUtil/Access.antt =====
-- RequiresWriteAccess of internal/sqlutil/sqlutil.go against the words of a statement.
use mathlib.Core.List.{append_assoc}
use sqlproxy.Prelude.{
  ℕ, zero, suc, ◌≤◌, ◌≡◌, refl, ap, sym, ◌∙◌, arith, [], ◌∷◌, ◌++◌, Text, true, false, length,
  text_eq, Bool-cases, inl, inr, All, ◌↔◌,
}
use sqlproxy.SqlUtil.Strip.{strip_literals}
use sqlproxy.SqlUtil.Words.{is_ident_char, take_ident, drop_ident, to_upper, contains_word}
use sqlproxy.SqlUtil.{mutating_keywords, scan_words, requires_write_access}

-- Every byte is one of identifiers.
abbrev pub IsWord : Text → Type 0
IsWord = All (λ c. is_ident_char c ≡ true)

-- The text ends in no identifier, or begins with none.
abbrev pub EndsOutside : Text → Type 0
EndsOutside [] = Unit {0}
EndsOutside (c ∷ []) = is_ident_char c ≡ false
EndsOutside (c ∷ d ∷ s) = EndsOutside (d ∷ s)

abbrev pub BeginsOutside : Text → Type 0
BeginsOutside [] = Unit {0}
BeginsOutside (c ∷ s) = is_ident_char c ≡ false

-- A mutating keyword stands in the text as a whole word.
pub record Mutates (upper : Text) : Type 0 where
  pub before : Text
  pub word : Text
  pub after : Text
  pub splits : upper ≡ before ++ (word ++ after)
  pub outside_before : EndsOutside before
  pub outside_after : BeginsOutside after
  pub is_word : IsWord word
  pub keyword : contains_word mutating_keywords word ≡ true

take-append-drop_ident : (s : Text) → take_ident s ++ drop_ident s ≡ s
unfolding take_ident drop_ident
take-append-drop_ident [] = refl
take-append-drop_ident (c ∷ s) = ground (arith, take-append-drop_ident s)

take_ident-IsWord : (s : Text) → IsWord (take_ident s)
unfolding take_ident
take_ident-IsWord [] = tt
take_ident-IsWord (c ∷ s) = elim (Bool-cases (is_ident_char c)) [
  | inl e ↦ rw e (e, take_ident-IsWord s)
  | inr e ↦ rw e tt
]

drop_ident-BeginsOutside : (s : Text) → BeginsOutside (drop_ident s)
unfolding drop_ident
drop_ident-BeginsOutside [] = tt
drop_ident-BeginsOutside (c ∷ s) = elim (Bool-cases (is_ident_char c)) [
  | inl e ↦ rw e (drop_ident-BeginsOutside s)
  | inr e ↦ rw e e
]

length-drop_ident : (s : Text) → length (drop_ident s) ≤ length s
unfolding drop_ident
length-drop_ident [] = omega arith
length-drop_ident (c ∷ s) = ground (arith, length-drop_ident s)

-- A word in front of something else is read whole.
take_ident-word : (w after : Text) → IsWord w → BeginsOutside after → take_ident (w ++ after) ≡ w
unfolding take_ident
take_ident-word [] [] hw ha = refl
take_ident-word [] (c ∷ after) hw ha = rw ha
take_ident-word (c ∷ w) after hw ha = rw hw.0 (ap (◌∷◌ c) (take_ident-word w after hw.1 ha))

EndsOutside-append :
    (w : Text) (c : ℕ) (s : Text) → EndsOutside (c ∷ s) → EndsOutside (w ++ (c ∷ s))
EndsOutside-append [] c s h = h
EndsOutside-append (d ∷ []) c s h = h
EndsOutside-append (d ∷ e ∷ w) c s h = EndsOutside-append (e ∷ w) c s h

EndsOutside-cons :
    (c : ℕ) (s : Text) → is_ident_char c ≡ false → EndsOutside s → EndsOutside (c ∷ s)
EndsOutside-cons c [] e h = e
EndsOutside-cons c (d ∷ s) e h = h

EndsOutside-tail : (c : ℕ) (s : Text) → EndsOutside (c ∷ s) → EndsOutside s
EndsOutside-tail c [] h = tt
EndsOutside-tail c (d ∷ s) h = h

keyword_ne_nil : contains_word mutating_keywords [] ≡ false
unfolding contains_word text_eq
keyword_ne_nil = refl

-- What is found in front of more words is found in the whole.
behind_word : (w s : Text) → IsWord w → BeginsOutside s → Mutates s → Mutates (w ++ s)
behind_word w s hw hs m = go m.before m.splits m.outside_before
  where
    go : (b : Text) → s ≡ b ++ (m.word ++ m.after) → EndsOutside b → Mutates (w ++ s)
    go [] e hb = absurd (starts m.word m.is_word m.keyword e)
      where
        starts :
            (v : Text) → IsWord v → contains_word mutating_keywords v ≡ true → s ≡ v ++ m.after → ⊥
        starts [] hv kw e = cc keyword_ne_nil
        starts (c ∷ v) hv kw e = let out : is_ident_char c ≡ false = rw e at hs in cc (out, hv.0)
    go (c ∷ b) e hb = record {
      before = w ++ (c ∷ b);
      word = m.word;
      after = m.after;
      splits = ap (λ (t : Text). w ++ t) e ∙ sym (append_assoc w (c ∷ b) (m.word ++ m.after));
      outside_before = EndsOutside-append w c b hb;
      outside_after = m.outside_after;
      is_word = m.is_word;
      keyword = m.keyword;
    }

-- A hit of the scan is a keyword that stands as a word.
scan_words-Mutates : (f : ℕ) (s : Text) → scan_words f s ≡ true → Mutates s
unfolding scan_words
scan_words-Mutates zero s h = absurd (ground arith)
scan_words-Mutates (suc f) [] h = absurd (ground arith)
scan_words-Mutates (suc f) (c ∷ s) h = elim (Bool-cases (is_ident_char c)) [
  | inl e ↦ elim (Bool-cases (contains_word mutating_keywords (c ∷ take_ident s))) [
    | inl k ↦ record {
      before = [];
      word = c ∷ take_ident s;
      after = drop_ident s;
      splits = ap (◌∷◌ c) (sym (take-append-drop_ident s));
      outside_before = tt;
      outside_after = drop_ident-BeginsOutside s;
      is_word = (e, take_ident-IsWord s);
      keyword = k;
    }
    | inr k ↦
        let m =
          behind_word (c ∷ take_ident s) (drop_ident s) (e, take_ident-IsWord s)
            (drop_ident-BeginsOutside s)
            (scan_words-Mutates f (drop_ident s) (rw (e, k, scan_words) at h)) in
        rw (take-append-drop_ident s) at m
  ]
  | inr e ↦
      let m = scan_words-Mutates f s (rw (e, scan_words) at h) in
      record {
        before = c ∷ m.before;
        word = m.word;
        after = m.after;
        splits = ap (◌∷◌ c) m.splits;
        outside_before = EndsOutside-cons c m.before e m.outside_before;
        outside_after = m.outside_after;
        is_word = m.is_word;
        keyword = m.keyword;
      }
]

-- A skipped word leaves the later words as they stand.
drop_ident-before :
    (c : ℕ) (b t : Text)
    → is_ident_char c ≡ true
    → EndsOutside (c ∷ b)
    → (b' : Text) × (drop_ident (b ++ t) ≡ b' ++ t) × EndsOutside b'
unfolding drop_ident
drop_ident-before c [] t e h = absurd (cc)
drop_ident-before c (d ∷ b) t e h = elim (Bool-cases (is_ident_char d)) [
  | inl i ↦ let (b', same, out) = drop_ident-before d b t i h in (b', rw (i, drop_ident) same, out)
  | inr i ↦ (d ∷ b, rw (i, drop_ident), h)
]

scan_words_found :
    (f : ℕ) (b w after : Text)
    → length (b ++ (w ++ after)) ≤ f
    → EndsOutside b
    → BeginsOutside after
    → IsWord w
    → contains_word mutating_keywords w ≡ true
    → scan_words f (b ++ (w ++ after)) ≡ true
unfolding scan_words
scan_words_found f [] [] after len hb ha hw k = cc keyword_ne_nil
scan_words_found zero [] (c ∷ w) after len hb ha hw k = absurd (omega arith)
scan_words_found (suc f) [] (c ∷ w) after len hb ha hw k =
    rw (hw.0, take_ident-word w after hw.1 ha, k, scan_words) refl
scan_words_found zero (c ∷ b) w after len hb ha hw k = absurd (omega arith)
scan_words_found (suc f) (c ∷ b) w after len hb ha hw k = elim (Bool-cases (is_ident_char c)) [
  | inl e ↦
      let t = w ++ after in
      let (b', same, out) = drop_ident-before c b t e hb in
      let shorter : length (b' ++ t) ≤ f =
        omega (arith, length-drop_ident (b ++ t), ap (length {A = ℕ}) same) in
      let rest = scan_words_found f b' w after shorter out ha hw k in ground (arith, rest, same)
  | inr e ↦
      rw (e, scan_words)
        (scan_words_found f b w after (omega arith) (EndsOutside-tail c b hb) ha hw k)
]

-- Write access is required exactly when a mutating keyword stands as a whole word outside
-- literals, comments and quoted identifiers.
pub requires_write_access_iff :
    (sql : Text) → (requires_write_access sql ≡ true) ↔ Mutates (to_upper (strip_literals sql))
unfolding requires_write_access
requires_write_access_iff sql = (
  scan_words-Mutates (length upper) upper,
  λ m. rw m.splits (
      scan_words_found _ m.before m.word m.after (omega arith) m.outside_before m.outside_after
        m.is_word m.keyword),
)
  where
    upper : Text
    upper = to_upper (strip_literals sql)
